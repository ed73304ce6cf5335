-- ===== src/Memory/FlatBuffer/Refine.antt =====
-- zysoft/zysoft/memory/flat_buffer.h: a buffer behaves as the list of its readable bytes.
use zysoft.Prelude.{
  ℕ, ◌+◌, ◌^◌, ◌<◌, ◌≡◌, refl, List, [], ◌∷◌, ◌++◌, Option, arith, length, drop, min,
}
use zysoft.Memory.Bytes.{Bytes}
use zysoft.Memory.FlatBuffer.{Buffer, contents, clear, consume, append, shrink}
use zysoft.Memory.FlatBuffer.Valid.{
  IsValid, given, append-IsValid, consume-IsValid, clear-IsValid, shrink-IsValid,
}

pub data Op : Type 0 where
  appends : Option Bytes → Op
  consumes : ℕ → Op
  clears shrinks : Op

-- What a caller sees after each call: the count that `consume` returns, and the readable bytes.
abbrev pub Reply : Type 0
Reply = ℕ × Bytes

unfoldable pub step_queue : Op → Bytes → Reply
step_queue (appends d) q = (0, q ++ given d)
step_queue (consumes n) q = (min n (length q), drop n q)
step_queue clears q = (0, [])
step_queue shrinks q = (0, q)

unfoldable pub run_queue : List Op → Bytes → List Reply
run_queue [] q = []
run_queue (o ∷ os) q = let r = step_queue o q in r ∷ run_queue os r.1

module _ (prepend : ℕ) where
  unfoldable pub step : Op → Buffer → Buffer × ℕ
  step (appends d) b = (append prepend d b, 0)
  step (consumes n) b = consume prepend n b
  step clears b = (clear prepend b, 0)
  step shrinks b = (shrink prepend b, 0)

  unfoldable pub run : List Op → Buffer → List Reply
  run [] b = []
  run (o ∷ os) b = let (c, n) = step o b in (n, contents c) ∷ run os c

  -- No append makes the vector longer than it may be.
  abbrev pub Fits : Op → Buffer → Type 0
  Fits (appends d) b = b.write_pos + length (given d) < 2 ^ 63
  Fits o b = Unit {0}

  abbrev pub AllFit : List Op → Buffer → Type 0
  AllFit [] b = Unit {0}
  AllFit (o ∷ os) b = Fits o b × AllFit os (step o b).0

  step_refines :
      (o : Op) (b : Buffer)
      → IsValid prepend b
      → Fits o b
      → IsValid prepend (step o b).0
        × (((step o b).1, contents (step o b).0) ≡ step_queue o (contents b))
  unfolding step step_queue
  step_refines (appends d) b v h = ground (arith, append-IsValid prepend d b v h)
  step_refines (consumes n) b v h = ground (arith, consume-IsValid prepend n b v)
  step_refines clears b v h = ground (arith, clear-IsValid prepend b v)
  step_refines shrinks b v h = ground (arith, shrink-IsValid prepend b v)

  -- No sequence of calls tells a valid buffer from the list of its readable bytes: an append adds its
  -- bytes at the end, a consume takes that many from the front and returns how many there were, a
  -- clear takes all, and a shrink none.
  pub run_refines :
      (os : List Op) (b : Buffer)
      → IsValid prepend b
      → AllFit os b
      → run os b ≡ run_queue os (contents b)
  unfolding run run_queue
  run_refines [] b v h = refl
  run_refines (o ∷ os) b v h =
      let (v', e) = step_refines o b v h.0 in ground (arith, e, run_refines os (step o b).0 v' h.1)
