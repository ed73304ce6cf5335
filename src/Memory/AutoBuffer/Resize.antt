-- ===== src/Memory/AutoBuffer/Resize.antt =====
-- zysoft/zysoft/memory/auto_buffer.h: `resize` keeps the elements, and the one block that is owned.
use zysoft.Prelude.{
  ℕ, zero, suc, get_elem?, ◌+◌, ◌≤◌, ◌<◌, ◌≡◌, refl, sym, ◌∙◌, ap, List, [], ◌∷◌, Option, none,
  some, Bool, true, false, arith, if◌then◌else◌, ltb, ◌==◌, length, take, Bool-cases, Option-cases,
  inl, inr, subst,
}
use zysoft.Memory.AutoBuffer.{
  Place, null, inside, block, AutoBuffer, elements, put, block_copy, dealloc, alloc, realloc,
  grow_external, grow_internal, get, size,
}
use zysoft.Memory.AutoBuffer.Shape.{Owns, Valid, external_cases, internal_place}
use zysoft.Memory.AutoBuffer.Moved.{
  new_block, copied_block, not_new, block_copy-new, Grown, moved-Grown,
}

pub dealloc-some :
    (a n : ℕ) (ys : List ℕ) (b : AutoBuffer)
    → b.heap a ≡ some ys
    → dealloc (block a) n b
      ≡ record b { heap = put a none b.heap; released = (length ys, n) ∷ b.released }
unfolding dealloc
dealloc-some a n ys b p = ground arith

pub get_elem?-take {ℓ} :
    {A : Type ℓ} (k i : ℕ) (xs : List A) → i < k → get_elem? (take k xs) i ≡ get_elem? xs i
get_elem?-take zero i xs p = absurd (omega arith)
get_elem?-take (suc k) i [] p = refl
get_elem?-take (suc k) zero (x ∷ xs) p = refl
get_elem?-take (suc k) (suc i) (x ∷ xs) p = get_elem?-take k i xs (omega arith)

pub get-kept :
    (i n : ℕ) (b b' : AutoBuffer)
    → take b.items (elements b'.buffer b') ≡ take b.items (elements b.buffer b)
    → b'.items ≡ n
    → i < b.items
    → i < n
    → get i b' ≡ get i b
unfolding get
get-kept i n b b' k e p q =
    let f : ltb i b'.items ≡ true = ground arith in
    let g : ltb i b.items ≡ true = ground arith in
    let h : get_elem? (elements b'.buffer b') i ≡ get_elem? (elements b.buffer b) i =
      sym (get_elem?-take b.items i (elements b'.buffer b') p)
      ∙ ap (λ xs. get_elem? xs i) k
      ∙ get_elem?-take b.items i (elements b.buffer b) p in
    rw (f, g) h

-- `resize` past its search for room.
abbrev pub finish : ℕ → AutoBuffer × Bool → AutoBuffer × Bool
finish n r = (if r.1 then record r.0 { items = n } else r.0, r.1)

module _ (space : ℕ) (request : ℕ → ℕ → Option (List ℕ)) where
  -- What `resize` gets where it wants more room.
  abbrev pub Grows : ℕ → AutoBuffer → AutoBuffer × Bool → Type 0
  Grows n b r =
      (r.1 ≡ true → Grown space n b r.0)
      × (r.1 ≡ false
          → (request b.requests n ≡ none) × (r.0 ≡ record b { requests = b.requests + 1 }))

  grow_external-none :
      (n : ℕ) (b : AutoBuffer)
      → request b.requests n ≡ none
      → grow_external space request n b ≡ (record b { requests = b.requests + 1 }, false)
  unfolding grow_external realloc alloc
  grow_external-none n b e = ground arith

  grow_external-some :
      (n : ℕ) (xs : List ℕ) (b : AutoBuffer)
      → request b.requests n ≡ some xs
      → grow_external space request n b ≡ (
        record (dealloc b.buffer b.items
            (block_copy (block b.requests) b.buffer b.items (new_block xs b))) {
              buffer = block b.requests;
            },
        true,
      )
  unfolding grow_external realloc alloc
  grow_external-some n xs b e = ground arith

  -- The old block goes, if there is one.
  released-Grown :
      (xs : List ℕ) (b : AutoBuffer)
      → b.external ≡ true
      → b.items ≤ length xs
      → Valid space b
      → Grown space
          (length xs)
          b
          (record (dealloc b.buffer b.items (copied_block xs b)) { buffer = block b.requests })
  unfolding dealloc
  released-Grown xs b x l v =
      let o : Owns true b.buffer b.heap = subst (λ t. Owns t b.buffer b.heap) x v.owned in
      let self : (b.requests == b.requests) ≡ true = ground arith in
      let c = copied_block xs b in
      let Grown_by : (p : Place)
          → b.buffer ≡ p
          → Grown space (length xs) b (record (dealloc p b.items c) { buffer = block b.requests })
          → Grown space (length xs) b
              (record (dealloc b.buffer b.items c) { buffer = block b.requests }) =
        λ p e g.
          subst
            (λ y.
              Grown space (length xs) b
                (record (dealloc y b.items c) { buffer = block b.requests }))
            (sym e) g in
      elim (external_cases b.buffer b.heap o) [
        | inl p ↦
            let none_left : Owns true null b.heap = subst (λ q. Owns true q b.heap) p o in
            Grown_by null p (
              moved-Grown space xs b c.heap b.released b.external x v l (rw self refl)
                (λ j q. rw q (none_left j)))
        | inr (a, p) ↦
            let (others, (ys, held)) = subst (λ q. Owns true q b.heap) p o in
            let q = not_new a b.requests ys b.heap held (v.fresh b.requests (omega arith)) in
            let held' : c.heap a ≡ some ys = rw q held in
            Grown_by (block a) p (
              rw (dealloc-some a b.items ys c held') (
                moved-Grown space xs b (put a none c.heap) ((length ys, b.items) ∷ b.released)
                  b.external x v l (ground arith)
                  (λ j u. elim (Bool-cases (j == a)) [
                    | inl w ↦ rw w refl
                    | inr w ↦ rw (w, u) (others j w)
                  ])))
      ]

  pub grow_external-Grows :
      (n : ℕ) (b : AutoBuffer)
      → ((xs : List ℕ) → request b.requests n ≡ some xs → length xs ≡ n)
      → b.external ≡ true
      → b.items ≤ n
      → Valid space b
      → Grows n b (grow_external space request n b)
  grow_external-Grows n b s x l v = elim (Option-cases (request b.requests n)) [
    | inl e ↦ subst (Grows n b) (sym (grow_external-none n b e)) (λ f. absurd cc, λ f. (e, refl))
    | inr (xs, e) ↦
        let size = s xs e in
        let l' : b.items ≤ length xs = omega (arith, size) in
        subst (Grows n b)
          (sym (
            grow_external-some n xs b e
            ∙ ap (λ c. (record (dealloc b.buffer b.items c) { buffer = block b.requests }, true))
                (block_copy-new space xs b v l')))
          (
            λ f.
                subst
                  (λ m. Grown space m b (record (dealloc b.buffer b.items (copied_block xs b)) {
                    buffer = block b.requests;
                  }))
                  size (released-Grown xs b x l' v),
            λ f. absurd cc,
          )
  ]

  grow_internal-cases :
      (n : ℕ) (b : AutoBuffer)
      → (ltb space n ≡ false → grow_internal space request n b ≡ (b, true))
        × (ltb space n ≡ true
            → request b.requests n ≡ none
            → grow_internal space request n b ≡ (record b { requests = b.requests + 1 }, false))
        × ((xs : List ℕ)
            → ltb space n ≡ true
            → request b.requests n ≡ some xs
            → grow_internal space request n b ≡ (
              record (block_copy (block b.requests) b.buffer b.items (new_block xs b)) {
                buffer = block b.requests;
                external = true;
              },
              true,
            ))
  unfolding grow_internal alloc
  grow_internal-cases n b = (λ e. ground arith, λ e f. ground arith, λ xs e f. ground arith)

  pub grow_internal-Grows :
      (n : ℕ) (b : AutoBuffer)
      → ((xs : List ℕ) → request b.requests n ≡ some xs → length xs ≡ n)
      → b.external ≡ false
      → b.items ≤ n
      → Valid space b
      → Grows n b (grow_internal space request n b)
  grow_internal-Grows n b s x l v =
      let (fits, fails, moves) = grow_internal-cases n b in
      let o : Owns false b.buffer b.heap = subst (λ t. Owns t b.buffer b.heap) x v.owned in
      let p = internal_place b.buffer b.heap o in
      let none_left : Owns false inside b.heap = subst (λ q. Owns false q b.heap) p o in
      let self : (b.requests == b.requests) ≡ true = ground arith in
      elim (Bool-cases (ltb space n)) [
        | inl big ↦ elim (Option-cases (request b.requests n)) [
          | inl e ↦ subst (Grows n b) (sym (fails big e)) (λ f. absurd cc, λ f. (e, refl))
          | inr (xs, e) ↦
              let size = s xs e in
              let l' : b.items ≤ length xs = omega (arith, size) in
              let c = copied_block xs b in
              let d : AutoBuffer = record c { buffer = block b.requests; external = true } in
              let g : Grown space (length xs) b d =
                moved-Grown space xs b c.heap b.released true refl v l' (rw self refl)
                  (λ j q. rw q (none_left j)) in
              subst (Grows n b)
                (sym (
                  moves xs big e
                  ∙ ap (λ t. (record t { buffer = block b.requests; external = true }, true))
                      (block_copy-new space xs b v l')))
                (λ f. subst (λ m. Grown space m b d) size g, λ f. absurd cc)
        ]
        | inr small ↦ subst (Grows n b) (sym (fits small)) (
          λ f. record {
            owned = v.owned;
            room = rw p (let q : n ≤ space = ground arith in omega (arith, v.inner));
            inner = v.inner;
            fresh = v.fresh;
            no_fault = v.no_fault;
            kept = refl;
          },
          λ f. absurd cc,
        )
      ]

  -- What `resize` to `n` leaves: a valid buffer of `n` items, the old ones among them as far as they go, or, where the allocator fails, the
  -- buffer as it was.
  abbrev pub Resized : ℕ → AutoBuffer → AutoBuffer × Bool → Type 0
  Resized n b r =
      (r.1 ≡ true
        → Valid space r.0 × (size r.0 ≡ n) × ((i : ℕ) → i < size b → i < n → get i r.0 ≡ get i b))
      × (r.1 ≡ false
          → (request b.requests n ≡ none) × (r.0 ≡ record b { requests = b.requests + 1 }))
