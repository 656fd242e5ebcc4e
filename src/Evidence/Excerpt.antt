-- ===== src/Evidence/Excerpt.antt =====
-- The excerpt of a large text: its head, its tail, and the number of bytes between.
use ai_dev_project.Prelude.{
  ℕ, ◌-◌, ◌*◌, ◌≤◌, ◌<◌, String, ◌≡◌, sym, ap, ◌∙◌, true, false, List, ◌++◌, arith, length, take,
  drop, length-take, length-drop, take-append-drop, drop-drop,
}
use ai_dev_project.Prelude.Int.{pos}
use ai_dev_project.Prelude.Text.{utf8}
use ai_dev_project.Platform.{Platform}
use ai_dev_project.Trust.{untrusted}
use ai_dev_project.Evidence.Compression.{
  omitted, marker, compress_for_context, head_of, tail_of, excerpt,
}

abbrev middle_of : ℕ → List ℕ → List ℕ
middle_of n raw = take (length raw - n - n) (drop n raw)

module _ (n : ℕ) (raw : List ℕ) (some_bytes : 0 < n) (fits : 2 * n ≤ length raw) where
  tail_of_lem : tail_of n raw ≡ drop (length raw - n) raw
  tail_of_lem = ground arith

  tail_of-drop : tail_of n raw ≡ drop (length raw - n - n) (drop n raw)
  tail_of-drop =
      tail_of_lem
      ∙ ap (λ (k : ℕ). drop k raw) (omega arith)
      ∙ sym (drop-drop n (length raw - n - n) raw)

  raw-split : head_of n raw ++ (middle_of n raw ++ tail_of n raw) ≡ raw
  raw-split =
      rw (tail_of-drop, take-append-drop (length raw - n - n) (drop n raw)) (take-append-drop n raw)

  length-head_of : length (head_of n raw) ≡ n
  length-head_of = omega (arith, length-take n raw)

  length-tail_of : length (tail_of n raw) ≡ n
  length-tail_of = rw tail_of_lem (omega (arith, length-drop (length raw - n) raw))

  length-middle_of : length (middle_of n raw) ≡ length raw - n - n
  length-middle_of = omega (arith, length-drop n raw, length-take (length raw - n - n) (drop n raw))

  omitted-middle : omitted n raw ≡ pos (length (middle_of n raw))
  unfolding omitted
  omitted-middle = ground (arith, length-head_of, length-tail_of, length-middle_of)

module _ (P : Platform) where
  -- Text of at most `max_bytes` bytes is passed on whole. Of longer untrusted text the model gets the
  -- first and the last `n` bytes, and between them a marker with the exact number of bytes left out,
  -- if `n` is positive and twice `n` is at most `max_bytes`. The sizes that are reported are exact: the
  -- original one is that of the text, and the compressed one is that of the compressed text, or of the text
  -- where it is passed on whole.
  pub compress_for_context_bounded :
      (text : String) (max_bytes n : ℕ)
      → 0 < n
      → 2 * n ≤ max_bytes
      → let raw = utf8 text in
        let c = compress_for_context P text untrusted max_bytes n in
        (length raw ≤ max_bytes
          → (c.applied ≡ false)
            × (c.original_size_bytes ≡ length raw)
            × (c.compressed_size_bytes ≡ length raw)
            × (c.context_text ≡ text))
        × (max_bytes < length raw
            → (c.applied ≡ true)
              × (c.original_size_bytes ≡ length raw)
              × (c.compressed_size_bytes ≡ length (P.compress raw))
              × ((head middle tail : List ℕ) × (raw ≡ head ++ (middle ++ tail))
                  × (length head ≡ n)
                  × (length tail ≡ n)
                  × (c.context_text
                      ≡ P.decode_replace (head ++ (utf8 (marker (pos (length middle))) ++ tail)))))
  unfolding compress_for_context excerpt
  compress_for_context_bounded text max_bytes n some_bytes fits =
      let raw = utf8 text in
      (
        λ h. (ground arith, ground arith, ground arith, ground arith),
        λ h.
            let fits' : 2 * n ≤ length raw = omega arith in
            (
              ground arith,
              ground arith,
              ground arith,
              (
                head_of n raw,
                middle_of n raw,
                tail_of n raw,
                sym (raw-split n raw some_bytes fits'),
                length-head_of n raw some_bytes fits',
                length-tail_of n raw some_bytes fits',
                ground (arith, omitted-middle n raw some_bytes fits'),
              ),
            ),
      )
