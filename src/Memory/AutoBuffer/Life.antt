-- ===== src/Memory/AutoBuffer/Life.antt =====
-- zysoft/zysoft/memory/auto_buffer.h: what `resize` leaves, and what a buffer gives back.
use zysoft.Prelude.{
  ℕ, ◌+◌, ◌≤◌, ◌<◌, ◌≡◌, refl, sym, ◌∙◌, ap, List, Option, none, some, Bool, true, false, arith,
  if◌then◌else◌, ltb, ◌==◌, length, Bool-cases, inl, inr, subst,
}
use zysoft.Memory.AutoBuffer.{
  Place, null, inside, block, AutoBuffer, elements, dealloc, resize, get, size, grow_external,
  grow_internal,
}
use zysoft.Memory.AutoBuffer.Shape.{Owns, Valid, external_cases}
use zysoft.Memory.AutoBuffer.Moved.{Grown}
use zysoft.Memory.AutoBuffer.Resize.{
  Grows, Resized, finish, get-kept, grow_external-Grows, grow_internal-Grows, dealloc-some,
}

pub elements-items :
    (p : Place) (n : ℕ) (b : AutoBuffer) → elements p (record b { items = n }) ≡ elements p b
elements-items null n b = refl
elements-items inside n b = refl
elements-items (block a) n b = refl

elements-requests :
    (p : Place) (n : ℕ) (b : AutoBuffer) → elements p (record b { requests = n }) ≡ elements p b
elements-requests null n b = refl
elements-requests inside n b = refl
elements-requests (block a) n b = refl

Grown-Valid :
    (space n : ℕ) (b b' : AutoBuffer) → Grown space n b b' → Valid space (record b' { items = n })
Grown-Valid space n b b' g = record {
  owned = g.owned;
  room = rw (elements-items b'.buffer n b') g.room;
  inner = g.inner;
  fresh = g.fresh;
  no_fault = g.no_fault;
}

-- A valid buffer has room for fewer items.
fewer-Grown : (space n : ℕ) (b : AutoBuffer) → n ≤ b.items → Valid space b → Grown space n b b
fewer-Grown space n b l v = record {
  owned = v.owned;
  room = omega (arith, v.room);
  inner = v.inner;
  fresh = v.fresh;
  no_fault = v.no_fault;
  kept = refl;
}

-- What a buffer gives back.
pub dealloc_frees :
    (space : ℕ) (b : AutoBuffer)
    → b.external ≡ true
    → Valid space b
    → let d = dealloc b.buffer b.items b in
      ((j : ℕ) → d.heap j ≡ none)
      × (d.internal ≡ b.internal)
      × (d.requests ≡ b.requests)
      × (d.fault ≡ false)
unfolding dealloc
dealloc_frees space b x v =
    let o : Owns true b.buffer b.heap = subst (λ t. Owns t b.buffer b.heap) x v.owned in
    let Freed : AutoBuffer → Type 0 = λ d.
      ((j : ℕ) → d.heap j ≡ none)
      × (d.internal ≡ b.internal)
      × (d.requests ≡ b.requests)
      × (d.fault ≡ false) in
    elim (external_cases b.buffer b.heap o) [
      | inl p ↦
          let none_left : Owns true null b.heap = subst (λ q. Owns true q b.heap) p o in
          subst (λ q. Freed (dealloc q b.items b)) (sym p) (none_left, refl, refl, v.no_fault)
      | inr (a, p) ↦
          let (others, (ys, held)) = subst (λ q. Owns true q b.heap) p o in
          subst (λ q. Freed (dealloc q b.items b)) (sym p)
            (subst Freed (sym (dealloc-some a b.items ys b held)) (
              λ j. elim (Bool-cases (j == a)) [ inl w ↦ rw w refl | inr w ↦ rw w (others j w) ],
              refl,
              refl,
              v.no_fault,
            ))
    ]

Grown-get :
    (space n i : ℕ) (b b' : AutoBuffer)
    → Grown space n b b'
    → i < b.items
    → i < n
    → get i (record b' { items = n }) ≡ get i b
Grown-get space n i b b' g p q =
    get-kept i n b (record b' { items = n }) (rw (elements-items b'.buffer n b') g.kept) refl p q

module _ (space : ℕ) (request : ℕ → ℕ → Option (List ℕ)) where
  pub resize_cases :
      (n : ℕ) (b : AutoBuffer)
      → (n ≡ 0
          → b.external ≡ true
          → resize space request n b ≡ (
            record (dealloc b.buffer b.items b) { external = false; buffer = inside; items = 0 },
            true,
          ))
        × (n ≡ 0 → b.external ≡ false → resize space request n b ≡ (record b { items = 0 }, true))
        × (1 ≤ n
            → b.items < n
            → resize space request n b
              ≡ finish n (
                  if b.external
                  then grow_external space request n b
                  else grow_internal space request n b))
        × (1 ≤ n → n ≤ b.items → resize space request n b ≡ (record b { items = n }, true))
  unfolding resize
  resize_cases n b = (
    λ p q. ground arith,
    λ p q. ground arith,
    λ p q.
        let e : (n == 0) ≡ false = ground arith in
        let f : ltb b.items n ≡ true = ground arith in rw (e, f) refl,
    λ p q. ground arith,
  )

  grown_finishes :
      (n : ℕ) (b : AutoBuffer) (r : AutoBuffer × Bool)
      → b.items < n
      → Grows space request n b r
      → Resized space request n b (finish n r)
  unfolding size
  grown_finishes n b r l g = elim (Bool-cases r.1) [
    | inl e ↦ rw e (
      λ f.
          (Grown-Valid space n b r.0 (g.0 e), refl, λ i p q. Grown-get space n i b r.0 (g.0 e) p q),
      λ f. absurd cc,
    )
    | inr e ↦ rw e (λ f. absurd cc, λ f. g.1 e)
  ]

  emptied-Valid :
      (b : AutoBuffer)
      → b.external ≡ true
      → Valid space b
      → Valid space
          (record (dealloc b.buffer b.items b) { external = false; buffer = inside; items = 0 })
  emptied-Valid b x v =
      let (none_left, same, asked, fine) = dealloc_frees space b x v in
      record {
        owned = none_left;
        room = omega arith;
        inner = ap length same ∙ v.inner;
        fresh = λ j p. none_left j;
        no_fault = fine;
      }

  -- `resize` never faults. Where it returns true the buffer has the wanted size, and every element that was there before and still is is what
  -- it was; it returns false only where the allocator fails, and then leaves the buffer as it was.
  pub resize_lem :
      (n : ℕ) (b : AutoBuffer)
      → ((xs : List ℕ) → request b.requests n ≡ some xs → length xs ≡ n)
      → Valid space b
      → Resized space request n b (resize space request n b)
  unfolding size
  resize_lem n b s v =
      let (freed, zeroed, grown, shrunk) = resize_cases n b in
      let done = Resized space request n b in
      let one : Bool → Type 0 = λ x.
        Grows space request n b
          (if x then grow_external space request n b else grow_internal space request n b) in
      elim (Bool-cases (n == 0)) [
        | inl z ↦
            let n0 : n ≡ 0 = ground arith in
            elim (Bool-cases b.external) [
              | inl x ↦ subst done (sym (freed n0 x)) (
                λ f. (emptied-Valid b x v, sym n0, λ i p q. absurd (omega arith)),
                λ f. absurd cc,
              )
              | inr x ↦ subst done (sym (zeroed n0 x)) (
                λ f. (
                  Grown-Valid space 0 b b (fewer-Grown space 0 b (omega arith) v),
                  sym n0,
                  λ i p q. absurd (omega arith),
                ),
                λ f. absurd cc,
              )
            ]
        | inr z ↦
            let n1 : 1 ≤ n = ground arith in
            elim (Bool-cases (ltb b.items n)) [
              | inl more ↦
                  let l : b.items < n = ground arith in
                  subst done (sym (grown n1 l)) (
                    grown_finishes n b _ l (elim (Bool-cases b.external) [
                      | inl x ↦
                          subst one (sym x)
                            (grow_external-Grows space request n b s x (omega arith) v)
                      | inr x ↦
                          subst one (sym x)
                            (grow_internal-Grows space request n b s x (omega arith) v)
                    ]))
              | inr less ↦
                  let l : n ≤ b.items = ground arith in
                  subst done (sym (shrunk n1 l)) (
                    λ f. (
                      Grown-Valid space n b b (fewer-Grown space n b l v),
                      refl,
                      λ i p q. Grown-get space n i b b (fewer-Grown space n b l v) p q,
                    ),
                    λ f. absurd cc,
                  )
            ]
      ]

  pub resize-Valid :
      (n : ℕ) (b : AutoBuffer)
      → ((xs : List ℕ) → request b.requests n ≡ some xs → length xs ≡ n)
      → Valid space b
      → Valid space (resize space request n b).0
  resize-Valid n b s v =
      let (good, bad) = resize_lem n b s v in
      elim (Bool-cases (resize space request n b).1) [
        | inl e ↦ (good e).0
        | inr e ↦ subst (Valid space) (sym (bad e).1) (record {
          owned = v.owned;
          room = rw (elements-requests b.buffer (b.requests + 1) b) v.room;
          inner = v.inner;
          fresh = λ j p. v.fresh j (omega arith);
          no_fault = v.no_fault;
        })
      ]
