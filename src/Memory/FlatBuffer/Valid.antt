-- ===== src/Memory/FlatBuffer/Valid.antt =====
-- zysoft/zysoft/memory/flat_buffer.h: the invariant of a buffer, and what each operation does to the
-- readable bytes. `PrependBytes ≤ read_pos ≤ write_pos ≤ size`, and the vector has less than 2^63
-- bytes (`max_size()`), so that no position wraps.
use zysoft.Prelude.{
  ℕ, ◌+◌, ◌-◌, ◌^◌, ◌≤◌, ◌<◌, ◌≡◌, ◌∙◌, ap, sym, append-nil, [], ◌∷◌, ◌++◌, Option, none, some,
  arith, length, replicate, drop, min, add_size, sub_size, length-replicate,
}
use zysoft.Memory.Bytes.{
  Bytes, slice_empty, slice-drop, drop_all, resize, copy_to, length-slice, length-copy_to,
  slice-copy_to, slice-copy_behind, length-resize, slice-resize,
}
use zysoft.Memory.FlatBuffer.{
  Buffer, readable_bytes, writable_bytes, contents, create, clear, consume, move_to_front,
  make_space, prepare_writable_bytes, append, shrink,
}

-- The bytes at the pointer, none for a null one.
abbrev pub given : Option Bytes → Bytes
given none = []
given (some xs) = xs

module _ (prepend : ℕ) where
  pub record IsValid (b : Buffer) : Type 0 where
    pub reserve : prepend ≤ b.read_pos
    pub order : b.read_pos ≤ b.write_pos
    pub inside : b.write_pos ≤ length b.buf
    pub small : length b.buf < 2 ^ 63

  length-contents : (b : Buffer) → IsValid b → length (contents b) ≡ b.write_pos - b.read_pos
  unfolding contents
  length-contents b v = length-slice b.buf b.read_pos b.write_pos v.order v.inside

  pub readable-length : (b : Buffer) → IsValid b → readable_bytes b ≡ length (contents b)
  unfolding readable_bytes contents
  readable-length b v = omega (arith, length-slice b.buf b.read_pos b.write_pos v.order v.inside)

  pub create-IsValid :
      (n : ℕ)
      → prepend + n < 2 ^ 63
      → IsValid (create prepend n)
        × (contents (create prepend n) ≡ [])
        × (readable_bytes (create prepend n) ≡ 0)
        × (writable_bytes (create prepend n) ≡ n)
  unfolding create contents readable_bytes writable_bytes
  create-IsValid n h = ground (
    arith,
    length-replicate {A = ℕ} (add_size prepend n) 0,
    slice_empty (replicate (add_size prepend n) 0) prepend,
  )

  pub clear-IsValid :
      (b : Buffer) → IsValid b → IsValid (clear prepend b) × (contents (clear prepend b) ≡ [])
  unfolding clear contents
  clear-IsValid b v = ground (arith, slice_empty b.buf prepend)

  move_to_front-IsValid :
      (b : Buffer) (v : IsValid b)
      → let c = move_to_front prepend b in
        IsValid c
        × (contents c ≡ contents b)
        × (length c.buf ≡ length b.buf)
        × (c.write_pos ≡ prepend + (b.write_pos - b.read_pos))
  unfolding move_to_front contents
  move_to_front-IsValid b v = ground (
    arith,
    length-slice b.buf b.read_pos b.write_pos v.order v.inside,
    length-copy_to (contents b) prepend b.buf,
    slice-copy_to (contents b) prepend (add_size prepend (sub_size b.write_pos b.read_pos)) b.buf,
  )

  make_space-IsValid :
      (len : ℕ) (b : Buffer)
      → IsValid b
      → b.write_pos + len < 2 ^ 63
      → writable_bytes b < len
      → let c = make_space prepend len b in
        IsValid c
        × (contents c ≡ contents b)
        × (len ≤ writable_bytes c)
        × (c.write_pos ≤ b.write_pos)
  unfolding make_space contents writable_bytes
  make_space-IsValid len b v h k = ground (
    arith,
    length-resize b.buf (add_size b.write_pos len),
    slice-resize b.buf b.read_pos b.write_pos (add_size b.write_pos len) v.order v.inside,
    move_to_front-IsValid b v,
  )

  pub prepare-IsValid :
      (len : ℕ) (b : Buffer)
      → IsValid b
      → b.write_pos + len < 2 ^ 63
      → let c = prepare_writable_bytes prepend len b in
        IsValid c
        × (contents c ≡ contents b)
        × (len ≤ writable_bytes c)
        × (c.write_pos ≤ b.write_pos)
  unfolding prepare_writable_bytes
  prepare-IsValid len b v h = ground (arith, make_space-IsValid len b v h)

  append_some :
      (xs : Bytes) (b : Buffer)
      → IsValid b
      → length xs ≤ writable_bytes b
      → let c = record b {
        buf = copy_to xs b.write_pos b.buf;
        write_pos = add_size b.write_pos (length xs);
      } in
        IsValid c × (contents c ≡ contents b ++ xs)
  unfolding contents writable_bytes
  append_some xs b v h = ground (
    arith,
    length-copy_to xs b.write_pos b.buf,
    slice-copy_behind xs b.read_pos b.write_pos (add_size b.write_pos (length xs)) b.buf v.order
        v.inside,
  )

  pub append-IsValid :
      (d : Option Bytes) (b : Buffer)
      → IsValid b
      → b.write_pos + length (given d) < 2 ^ 63
      → IsValid (append prepend d b)
        × (contents (append prepend d b) ≡ contents b ++ given d)
        × ((append prepend d b).write_pos ≤ b.write_pos + length (given d))
  unfolding append
  append-IsValid none b v h = (v, sym (append-nil (contents b)), omega arith)
  append-IsValid (some []) b v h = (v, sym (append-nil (contents b)), omega arith)
  append-IsValid (some (x ∷ xs)) b v h =
      let c = prepare_writable_bytes prepend (length (x ∷ xs)) b in
      let (vc, same, room, back) = prepare-IsValid (length (x ∷ xs)) b v h in
      let (va, longer) = append_some (x ∷ xs) c vc room in
      (va, longer ∙ ap (λ t. t ++ x ∷ xs) same, omega arith)

  consume_part :
      (len : ℕ) (b : Buffer)
      → IsValid b
      → len < readable_bytes b
      → let c = record b { read_pos = add_size b.read_pos len } in
        IsValid c × (contents c ≡ drop len (contents b))
  unfolding contents readable_bytes
  consume_part len b v h =
      ground (arith, slice-drop len b.buf b.read_pos (add_size b.read_pos len) b.write_pos)

  pub consume-IsValid :
      (len : ℕ) (b : Buffer)
      → IsValid b
      → let (c, n) = consume prepend len b in
        IsValid c × (contents c ≡ drop len (contents b)) × (n ≡ min len (length (contents b)))
  unfolding consume
  consume-IsValid len b v = ground (
    arith,
    clear-IsValid b v,
    readable-length b v,
    consume_part len b v,
    drop_all len (contents b),
  )

  shrunk :
      (c : Buffer) (xs : Bytes)
      → IsValid c
      → contents c ≡ xs
      → c.write_pos ≡ prepend + length xs
      → let d = record c { buf = resize c.buf c.write_pos } in
        IsValid d
        × (contents d ≡ xs)
        × (length d.buf ≡ prepend + length xs)
        × (writable_bytes d ≡ 0)
  unfolding contents writable_bytes
  shrunk c xs v e h = ground (
    arith,
    length-resize c.buf c.write_pos,
    slice-resize c.buf c.read_pos c.write_pos c.write_pos v.order v.inside,
  )

  pub shrink-IsValid :
      (b : Buffer)
      → IsValid b
      → let c = shrink prepend b in
        IsValid c
        × (contents c ≡ contents b)
        × (length c.buf ≡ prepend + length (contents b))
        × (writable_bytes c ≡ 0)
  unfolding shrink
  shrink-IsValid b v =
      let c = move_to_front prepend b in
      let (vc, same, size, back) = move_to_front-IsValid b v in
      shrunk c (contents b) vc same (omega (arith, length-contents b v))
