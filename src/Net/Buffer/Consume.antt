-- ===== src/Net/Buffer/Consume.antt =====
-- zysoft/net/buffer.h: `consume`.
use zysoft.Prelude.{ℕ, ◌≡◌, ◌∙◌, arith, length, drop, leb, sym, ap, subst}
use zysoft.Memory.FlatBuffer
use zysoft.Memory.FlatBuffer.{Buffer, contents, readable_bytes}
use zysoft.Memory.FlatBuffer.Valid.{IsValid, consume-IsValid, readable-length}
use zysoft.Net.Buffer.{prepend_bytes, consume, clear}

as_flat_buffer :
    (len : ℕ) (b : Buffer) → (consume len b).0 ≡ (FlatBuffer.consume prepend_bytes len b).0
unfolding consume FlatBuffer.consume
as_flat_buffer len b = ground arith

-- `consume` of a valid buffer keeps it valid and takes the bytes off the front; its assertion holds
-- exactly if there are so many, and under NDEBUG one that fails leaves the buffer empty.
pub consume_lem :
    (len : ℕ) (b : Buffer)
    → IsValid prepend_bytes b
    → let (c, ok) = consume len b in
      IsValid prepend_bytes c
      × (contents c ≡ drop len (contents b))
      × (ok ≡ leb len (length (contents b)))
unfolding consume clear
consume_lem len b v =
    let (valid, left, _) = consume-IsValid prepend_bytes len b v in
    let e = as_flat_buffer len b in
    (
      subst (IsValid prepend_bytes) (sym e) valid,
      ap contents e ∙ left,
      ap (leb len) (readable-length prepend_bytes b v),
    )
