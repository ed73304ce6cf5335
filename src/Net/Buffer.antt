-- ===== src/Net/Buffer.antt =====
-- zysoft/net/buffer.h, class `buffer`: the text of `basic_flat_buffer` with 8 bytes of reserve, but
-- for `consume`, which asserts that there is enough to read and returns nothing.
pub mod Search
pub mod Consume
use zysoft.Prelude.{ℕ, ◌*◌, Bool, Option, if◌then◌else◌, ltb, leb, add_size}
use zysoft.Memory.Bytes.{Bytes}
use zysoft.Memory.FlatBuffer
use zysoft.Memory.FlatBuffer.{Buffer}

abbrev pub prepend_bytes : ℕ
prepend_bytes = 8

abbrev pub init_size : ℕ
init_size = 4 * 1024

unfoldable pub create : ℕ → Buffer
create n = FlatBuffer.create prepend_bytes n

unfoldable pub clear : Buffer → Buffer
clear b = FlatBuffer.clear prepend_bytes b

-- The second part says whether the assertion holds.
unfoldable pub consume : ℕ → Buffer → Buffer × Bool
unfolding clear
consume len b =
    let readable = FlatBuffer.readable_bytes b in
    (
      if ltb len readable then record b { read_pos = add_size b.read_pos len } else clear b,
      leb len readable,
    )

unfoldable pub append : Option Bytes → Buffer → Buffer
append d b = FlatBuffer.append prepend_bytes d b

unfoldable pub shrink : Buffer → Buffer
shrink b = FlatBuffer.shrink prepend_bytes b

unfoldable pub make_space : ℕ → Buffer → Buffer
make_space len b = FlatBuffer.make_space prepend_bytes len b

unfoldable pub prepare_writable_bytes : ℕ → Buffer → Buffer
prepare_writable_bytes len b = FlatBuffer.prepare_writable_bytes prepend_bytes len b
