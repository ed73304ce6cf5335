-- ===== src/Timer/Wheel.antt =====
-- zysoft/zysoft/timer/timing_wheel.h, class `timing_wheel<T, N>`; `n` is `N`.
--
-- An `entry` is shared by the containers that hold it and by no one else: a container holds the
-- entry's address, a number, and `store` has what stands there. Addresses are never used twice, so a
-- `wheel_handle` is an address, and it locks while a container holds that. An `unordered_set` is a
-- list without repetition, a slot's `multimap` a list sorted by key, later entries of a key behind
-- earlier ones. `none` is a failed assertion, or the `erase` of `end()`.
pub mod Counts
pub mod Filing
pub mod Valid
pub mod Cancel
pub mod Reset
pub mod Sorted
pub mod Turn
pub mod Punctual
pub mod Deadlines
use zysoft.Prelude.{
  ℕ, zero, suc, ◌+◌, ◌%◌, ◌≡◌, List, [], ◌∷◌, ◌++◌, Option, none, some, Bool, true, false, ◌&&◌,
  ◌||◌, if◌then◌else◌, ltb, leb, ◌==◌, length, get_or, set, replicate, map, add_size, size_mod,
}

pub record Entry {ℓ} (A : Type ℓ) : Type ℓ where
  pub tick : ℕ
  pub duration : ℕ
  pub value : A

-- `std::multimap<std::uint64_t, entry_ptr>`
abbrev pub Slot : Type 0
Slot = List (ℕ × ℕ)

pub record Wheel {ℓ} (A : Type ℓ) : Type ℓ where
  pub slots : List Slot
  pub immediate : List ℕ
  pub all : List ℕ
  pub store : ℕ → Option (Entry A)
  pub next : ℕ
  pub current_tick : ℕ

abbrev pub member : ℕ → List ℕ → Bool
member h [] = false
member h (x ∷ xs) = x == h || member h xs

-- `unordered_set::erase` of a value.
unfoldable pub erase : ℕ → List ℕ → List ℕ
erase h [] = []
erase h (x ∷ xs) = if x == h then xs else x ∷ erase h xs

unfoldable pub erase_all : List ℕ → List ℕ → List ℕ
erase_all [] xs = xs
erase_all (h ∷ hs) xs = erase_all hs (erase h xs)

abbrev pub addresses : Slot → List ℕ
addresses [] = []
addresses ((k, h) ∷ s) = h ∷ addresses s

-- `multimap::insert`
unfoldable pub insert_entry : ℕ → ℕ → Slot → Slot
insert_entry k h [] = (k, h) ∷ []
insert_entry k h ((k', h') ∷ s) =
    if ltb k k' then (k, h) ∷ (k', h') ∷ s else (k', h') ∷ insert_entry k h s

-- The loop of `slot_remove_entry` over `equal_range(k)`.
unfoldable pub slot_remove_entry : ℕ → ℕ → Slot → Option Slot
slot_remove_entry k h [] = none
slot_remove_entry k h ((k', h') ∷ s) =
    let rest = slot_remove_entry k h s in
    if k' == k && h' == h then some s else elim rest [ none ↦ none | some r ↦ some ((k', h') ∷ r) ]

-- `[begin(), upper_bound(t))` and what is left.
unfoldable pub due : ℕ → Slot → Slot
due t [] = []
due t ((k, h) ∷ s) = let rest = due t s in if leb k t then (k, h) ∷ rest else []

unfoldable pub later : ℕ → Slot → Slot
later t [] = []
later t ((k, h) ∷ s) = let rest = later t s in if leb k t then rest else (k, h) ∷ s

unfoldable pub wheel_entries_count : List Slot → ℕ
wheel_entries_count [] = 0
wheel_entries_count (s ∷ ss) = length (addresses s) + wheel_entries_count ss

unfoldable pub in_slots : ℕ → List Slot → Bool
in_slots h [] = false
in_slots h (s ∷ ss) = member h (addresses s) || in_slots h ss

module _ {ℓ} {A : Type ℓ} where
  abbrev pub put : (ℕ → Option (Entry A)) → ℕ → Entry A → ℕ → Option (Entry A)
  put store h e j = if j == h then some e else store j

  unfoldable pub slot_at : Wheel A → ℕ → Slot
  slot_at w i = get_or w.slots i []

  -- `hdl.lock()`
  unfoldable pub lock : ℕ → Wheel A → Option (Entry A)
  unfolding in_slots
  lock h w =
      if member h w.all || (member h w.immediate || in_slots h w.slots) then w.store h else none

  -- The values and durations at the addresses.
  unfoldable pub collect : (ℕ → Option (Entry A)) → List ℕ → List (A × ℕ)
  collect store [] = []
  collect store (h ∷ hs) = elim (store h) [
    | none ↦ collect store hs
    | some e ↦ (e.value, e.duration) ∷ collect store hs
  ]

  unfoldable pub tick : Wheel A → Wheel A
  tick w = record w { current_tick = add_size w.current_tick 1 }

  -- What every operation asserts at its start and its end.
  abbrev pub SizesAgree : Wheel A → Type 0
  SizesAgree w = length w.all ≡ wheel_entries_count w.slots + length w.immediate

module _ {ℓ} {A : Type ℓ} (n : ℕ) where
  unfoldable pub create : Wheel A
  create = record {
    slots = replicate n [];
    immediate = [];
    all = [];
    store = λ h. none;
    next = 0;
    current_tick = 0;
  }

  -- What `get_expired(t, expired)` takes out, in order.
  unfoldable pub expired_at : ℕ → Wheel A → List ℕ
  unfolding slot_at
  expired_at t w = w.immediate ++ addresses (due t (slot_at w (w.current_tick % n)))

  unfoldable pub get_expired : ℕ → Wheel A → Wheel A × List (A × ℕ)
  unfolding slot_at expired_at collect
  get_expired t w =
      let idx = w.current_tick % n in
      (
        record w {
          slots = set w.slots idx (later t (slot_at w idx));
          immediate = [];
          all = erase_all (expired_at t w) w.all;
        },
        collect w.store (expired_at t w),
      )

  -- The two parts of `add_impl`: an entry that has expired at once, and one that waits.
  unfoldable pub add_immediate : A → Wheel A → Wheel A
  add_immediate v w = record w {
    immediate = w.next ∷ w.immediate;
    all = w.next ∷ w.all;
    store = put w.store w.next (record { tick = w.current_tick; duration = 0; value = v });
    next = w.next + 1;
  }

  unfoldable pub add_waiting : A → ℕ → Wheel A → Wheel A
  unfolding slot_at
  add_waiting v duration w =
      let new_tick = add_size duration w.current_tick in
      let index = new_tick % n in
      record w {
        slots = set w.slots index (insert_entry new_tick w.next (slot_at w index));
        all = w.next ∷ w.all;
        store = put w.store w.next (record { tick = new_tick; duration = duration; value = v });
        next = w.next + 1;
      }

  -- `add_impl`; the handle is the address.
  unfoldable pub add : A → ℕ → Wheel A → Wheel A × ℕ
  add v duration w = (if duration == 0 then add_immediate v w else add_waiting v duration w, w.next)

  -- `slot_remove_entry(get_slot(e), e)`
  unfoldable pub remove_from_slot : ℕ → Entry A → Wheel A → Option (Wheel A)
  unfolding slot_at
  remove_from_slot h e w =
      let idx = e.tick % n in
      elim (slot_remove_entry e.tick h (slot_at w idx)) [
        | none ↦ none
        | some s ↦ some (record w { slots = set w.slots idx s })
      ]

  unfoldable pub cancel : ℕ → Wheel A → Option (Wheel A)
  cancel h w = elim (lock h w) [
    | none ↦ some w
    | some e ↦
        if member h w.all
        then elim (remove_from_slot h e w) [
          | none ↦ none
          | some w' ↦ some (record w' { all = erase h w'.all })
        ]
        else some w
  ]

  -- The entry put back at its new tick.
  unfoldable pub restart : ℕ → Entry A → Wheel A → Wheel A
  unfolding slot_at
  restart h e w =
      let t = add_size e.duration w.current_tick in
      record w {
        slots = set w.slots (t % n) (insert_entry t h (slot_at w (t % n)));
        store = put w.store h (record e { tick = t });
      }

  unfoldable pub reset : ℕ → Wheel A → Option (Wheel A)
  reset h w = elim (lock h w) [
    | none ↦ some w
    | some e ↦
        if e.duration == 0
        then some w
        else if member h w.all
        then (if e.tick == add_size e.duration w.current_tick
            then some w
            else elim (remove_from_slot h e w) [ none ↦ none | some w' ↦ some (restart h e w') ])
        else some w
  ]

  unfoldable pub clear : Wheel A → Wheel A
  clear w = record w { slots = map (λ s. []) w.slots; immediate = []; all = []; current_tick = 0 }
