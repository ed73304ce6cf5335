-- ===== src/Memory/AutoBuffer.antt =====
-- zysoft/zysoft/memory/auto_buffer.h, class `auto_buffer`; `space` is `N`. The allocator is a parameter: `request k n` is what
-- its `k`-th call of `allocate` gives for `n` elements, the contents of a new block or, as `none`, a
-- null pointer. A block's address is the number of the request that gave it.
--
-- An element is a number. `heap` has the blocks that are not deallocated; `released` has, newest first, the
-- size of each block that was deallocated and the size that `deallocate` was told. `fault` is a copy or a fill past a block's end, or the
-- deallocation of what is not allocated.
pub mod Shape
pub mod Moved
pub mod Resize
pub mod Life
pub mod Create
pub mod Runs
mod Tests
use zysoft.Prelude.{
  ℕ, ◌+◌, List, [], ◌∷◌, ◌++◌, Option, none, some, Bool, true, false, ◌&&◌, if◌then◌else◌, ltb, leb,
  ◌==◌, length, take, drop, replicate, get_elem?, set,
}
use zysoft.Memory.Bytes.{copy_to, slice}

-- What `buffer_` points to: nothing, `internal_`, or a block.
pub data Place : Type 0 where
  null : Place
  inside : Place
  block : ℕ → Place

pub record AutoBuffer : Type 0 where
  pub internal : List ℕ
  pub buffer : Place
  pub items : ℕ
  pub external : Bool
  pub heap : ℕ → Option (List ℕ)
  pub requests : ℕ
  pub released : List (ℕ × ℕ)
  pub fault : Bool

abbrev pub or_empty : Option (List ℕ) → List ℕ
or_empty none = []
or_empty (some xs) = xs

-- What stands at a place.
abbrev pub elements : Place → AutoBuffer → List ℕ
elements null b = []
elements inside b = b.internal
elements (block a) b = or_empty (b.heap a)

abbrev pub put : ℕ → Option (List ℕ) → (ℕ → Option (List ℕ)) → ℕ → Option (List ℕ)
put a x heap j = if j == a then x else heap j

abbrev pub overwrite : Place → List ℕ → AutoBuffer → AutoBuffer
overwrite null xs b = b
overwrite inside xs b = record b { internal = xs }
overwrite (block a) xs b = record b { heap = put a (some xs) b.heap }

abbrev pub failed : AutoBuffer → AutoBuffer
failed b = record b { fault = true }

-- `memcpy` of `len` elements.
unfoldable pub block_copy : Place → Place → ℕ → AutoBuffer → AutoBuffer
block_copy to from len b =
    if leb len (length (elements from b)) && leb len (length (elements to b))
    then overwrite to (copy_to (take len (elements from b)) 0 (elements to b)) b
    else failed b

-- `memset` of `len` elements to 0.
unfoldable pub block_fill : Place → ℕ → AutoBuffer → AutoBuffer
block_fill to len b =
    if leb len (length (elements to b))
    then overwrite to (copy_to (replicate len 0) 0 (elements to b)) b
    else failed b

-- `deallocate` of a null pointer does nothing.
unfoldable pub dealloc : Place → ℕ → AutoBuffer → AutoBuffer
dealloc null n b = b
dealloc inside n b = failed b
dealloc (block a) n b = elim (b.heap a) [
  | none ↦ failed b
  | some xs ↦ record b { heap = put a none b.heap; released = (length xs, n) ∷ b.released }
]

unfoldable pub empty : AutoBuffer → Bool
empty b = b.items == 0

unfoldable pub size : AutoBuffer → ℕ
size b = b.items

-- `[begin(), end())`
unfoldable pub contents : AutoBuffer → List ℕ
contents b = slice (elements b.buffer b) 0 b.items

-- `[cbegin(), cend())`
unfoldable pub const_contents : AutoBuffer → List ℕ
const_contents b = slice (elements b.buffer b) b.items b.items

-- `operator[]`, read and written; `none` is the failed assertion.
unfoldable pub get : ℕ → AutoBuffer → Option ℕ
get index b = if ltb index b.items then get_elem? (elements b.buffer b) index else none

unfoldable pub assign : ℕ → ℕ → AutoBuffer → Option AutoBuffer
assign index v b =
    if ltb index b.items
    then some (overwrite b.buffer (set (elements b.buffer b) index v) b)
    else none

-- The destructor.
unfoldable pub destroy : AutoBuffer → AutoBuffer
destroy b = if b.external then dealloc b.buffer b.items b else b

module _ (space : ℕ) (request : ℕ → ℕ → Option (List ℕ)) where
  unfoldable pub alloc : ℕ → AutoBuffer → AutoBuffer × Place
  alloc n b = elim (request b.requests n) [
    | none ↦ (record b { requests = b.requests + 1 }, null)
    | some xs ↦ (
      record b { heap = put b.requests (some xs) b.heap; requests = b.requests + 1 },
      block b.requests,
    )
  ]

  unfoldable pub realloc : Place → ℕ → ℕ → AutoBuffer → AutoBuffer × Place
  realloc current current_n new_n b =
      let (b', p) = alloc new_n b in
      elim p [
        | null ↦ (b', null)
        | inside ↦ (b', inside)
        | block a ↦ (dealloc current current_n (block_copy (block a) current current_n b'), block a)
      ]

  abbrev pub bare : ℕ → AutoBuffer
  bare n = record {
    internal = replicate space 0;
    buffer = inside;
    items = n;
    external = false;
    heap = λ j. none;
    requests = 0;
    released = [];
    fault = false;
  }

  -- The constructor.
  unfoldable pub create : ℕ → AutoBuffer
  create n =
      if ltb n space
      then block_fill inside n (bare n)
      else let (b, p) = alloc n (bare n) in
        elim p [
          | null ↦ block_fill null 0 (record b { buffer = null; items = 0; external = true })
          | inside ↦ b
          | block a ↦ block_fill (block a) n (record b { buffer = block a; external = true })
        ]

  -- `resize` past its test of 0, where more elements are wanted; the result says whether there is room.
  unfoldable pub grow_external : ℕ → AutoBuffer → AutoBuffer × Bool
  grow_external n b =
      let (b', p) = realloc b.buffer b.items n b in
      elim p [
        | null ↦ (b', false)
        | inside ↦ (b', false)
        | block a ↦ (record b' { buffer = block a }, true)
      ]

  unfoldable pub grow_internal : ℕ → AutoBuffer → AutoBuffer × Bool
  grow_internal n b =
      if ltb space n
      then (let (b', p) = alloc n b in
          elim p [
            | null ↦ (b', false)
            | inside ↦ (b', false)
            | block a ↦ (
              record (block_copy (block a) b.buffer b.items b') {
                buffer = block a;
                external = true;
              },
              true,
            )
          ])
      else (b, true)

  unfoldable pub resize : ℕ → AutoBuffer → AutoBuffer × Bool
  resize n b =
      if n == 0
      then (
        if b.external
            then record (dealloc b.buffer b.items b) {
              external = false;
              buffer = inside;
              items = 0;
            }
            else record b { items = 0 },
        true,
      )
      else if ltb b.items n
      then (let (b', done) = (if b.external then grow_external n b else grow_internal n b) in
          (if done then record b' { items = n } else b', done))
      else (record b { items = n }, true)
