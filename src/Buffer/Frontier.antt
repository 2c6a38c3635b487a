-- ===== src/Buffer/Frontier.antt =====
-- Buffers that are filled from the front: an encoder allocates the whole size, then writes each
-- field where the last one ended. What is written follows what stands there, and the zeros shrink.
use kafka_node_ts.Prelude.{
  ℕ, zero, suc, ◌+◌, ◌≤◌, ◌≡◌, refl, ap, ◌∙◌, sym, [], ◌∷◌, ◌++◌, length, append_assoc,
  length-append, length-replicate, replicate-add, le→leb, arith,
}
use kafka_node_ts.Prelude.Int.{ℤ}
use kafka_node_ts.Prelude.Errors.{ok}
use kafka_node_ts.Buffer.Defs.{
  Bytes, alloc, IsInt, IsUint, int_bytes, overlay, put, write_int, write_uint, to_pattern,
}
use kafka_node_ts.Buffer.Numbers.{length-be_bytes}

overlay-zeros : (src post : Bytes) → overlay (alloc (length src) ++ post) src ≡ src ++ post
unfolding overlay
overlay-zeros [] [] = refl
overlay-zeros [] (b ∷ post) = refl
overlay-zeros (x ∷ src) post = ap (◌∷◌ x) (overlay-zeros src post)

put-append :
    (out buf : Bytes) (i : ℕ) (src : Bytes)
    → i ≡ length out
    → put (out ++ buf) i src ≡ out ++ overlay buf src
unfolding put
put-append [] buf zero src e = refl
put-append [] buf (suc i) src e = absurd (omega arith)
put-append (x ∷ out) buf zero src e = absurd (omega arith)
put-append (x ∷ out) buf (suc i) src e = ap (◌∷◌ x) (put-append out buf i src (omega arith))

module _ (out : Bytes) (i n m : ℕ) (hi : i ≡ length out) where
  pub put-next :
      (src : Bytes) → n ≡ length src + m → put (out ++ alloc n) i src ≡ (out ++ src) ++ alloc m
  put-next src hn =
      put-append out (alloc n) i src hi
      ∙ ap (λ (k : ℕ). out ++ overlay (alloc k) src) hn
      ∙ ap (λ (zs : Bytes). out ++ overlay zs src) (replicate-add (length src) m 0)
      ∙ ap (◌++◌ out) (overlay-zeros src (alloc m))
      ∙ sym (append_assoc out src (alloc m))

  room : (w : ℕ) → n ≡ w + m → i + w ≤ length (out ++ alloc n)
  room w hn = omega (arith, length-append out (alloc n), length-replicate {A = ℕ} n 0)

  pub write_int-next :
      (w : ℕ) (v : ℤ)
      → IsInt w v
      → n ≡ w + m
      → write_int w (out ++ alloc n) v i ≡ ok ((out ++ int_bytes w v) ++ alloc m)
  unfolding write_int
  write_int-next w v h hn =
      rw (h, le→leb (i + w) (length (out ++ alloc n)) (room w hn))
        (ap ok (put-next (int_bytes w v) (omega (arith, length-be_bytes w (to_pattern w v)))))

  pub write_uint-next :
      (w : ℕ) (v : ℤ)
      → IsUint w v
      → n ≡ w + m
      → write_uint w (out ++ alloc n) v i ≡ ok ((out ++ int_bytes w v) ++ alloc m)
  unfolding write_uint
  write_uint-next w v h hn =
      rw (h, le→leb (i + w) (length (out ++ alloc n)) (room w hn))
        (ap ok (put-next (int_bytes w v) (omega (arith, length-be_bytes w (to_pattern w v)))))
