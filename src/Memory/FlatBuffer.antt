-- ===== src/Memory/FlatBuffer.antt =====
-- zysoft/zysoft/memory/flat_buffer.h, class `basic_flat_buffer<PSize, ISize>`: bytes to read between
-- two positions of a vector, with room kept free before and behind. `prepend` is `PSize`.
pub mod Valid
pub mod Refine
use zysoft.Prelude.{
  ℕ, zero, suc, ◌+◌, List, [], ◌∷◌, Bool, Option, none, some, length, replicate, ltb, ◌==◌,
  if◌then◌else◌, add_size, sub_size,
}
use zysoft.Memory.Bytes.{Bytes, slice, resize, copy_to}

pub record Buffer : Type 0 where
  pub buf : Bytes
  pub read_pos : ℕ
  pub write_pos : ℕ

unfoldable pub empty : Buffer → Bool
empty b = b.read_pos == b.write_pos

unfoldable pub readable_bytes : Buffer → ℕ
readable_bytes b = sub_size b.write_pos b.read_pos

unfoldable pub writable_bytes : Buffer → ℕ
writable_bytes b = sub_size (length b.buf) b.write_pos

-- The bytes at `readable_ptr()`, `readable_bytes()` of them.
unfoldable pub contents : Buffer → Bytes
contents b = slice b.buf b.read_pos b.write_pos

unfoldable pub swap : Buffer → Buffer → Buffer × Buffer
swap a b = (b, a)

module _ (prepend : ℕ) where
  unfoldable pub create : ℕ → Buffer
  create n = record {
    buf = replicate (add_size prepend n) 0;
    read_pos = prepend;
    write_pos = prepend;
  }

  unfoldable pub clear : Buffer → Buffer
  clear b = record b { read_pos = prepend; write_pos = prepend }

  -- The new buffer and the count of bytes consumed.
  unfoldable pub consume : ℕ → Buffer → Buffer × ℕ
  unfolding clear readable_bytes
  consume len b =
      let readable = readable_bytes b in
      if ltb len readable
      then (record b { read_pos = add_size b.read_pos len }, len)
      else (clear b, readable)

  -- The readable bytes copied to `data() + PrependBytes`.
  move_to_front : Buffer → Buffer
  move_to_front b = record {
    buf = copy_to (slice b.buf b.read_pos b.write_pos) prepend b.buf;
    read_pos = prepend;
    write_pos = add_size prepend (sub_size b.write_pos b.read_pos);
  }

  unfoldable pub make_space : ℕ → Buffer → Buffer
  unfolding writable_bytes move_to_front
  make_space len b =
      if ltb (add_size (sub_size b.read_pos prepend) (writable_bytes b)) len
      then record b { buf = resize b.buf (add_size b.write_pos len) }
      else move_to_front b

  unfoldable pub prepare_writable_bytes : ℕ → Buffer → Buffer
  unfolding make_space writable_bytes
  prepare_writable_bytes len b = if ltb (writable_bytes b) len then make_space len b else b

  -- `append(d, len)`: `none` is a null pointer, and else the `len` bytes at `d`.
  unfoldable pub append : Option Bytes → Buffer → Buffer
  unfolding prepare_writable_bytes
  append none b = b
  append (some []) b = b
  append (some (x ∷ xs)) b =
      let len = length (x ∷ xs) in
      let c = prepare_writable_bytes len b in
      record c { buf = copy_to (x ∷ xs) c.write_pos c.buf; write_pos = add_size c.write_pos len }

  unfoldable pub shrink : Buffer → Buffer
  unfolding move_to_front
  shrink b = let c = move_to_front b in record c { buf = resize c.buf c.write_pos }
