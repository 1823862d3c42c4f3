-- ===== src/Loader/Upload.antt =====
-- The chunks of webapp/api/lib/deploy-builder.ts, written into a buffer account: what the loader
-- program does with a write instruction, and the program that the buffer holds at the end.
use multi_delegator.Base.{
  ℕ, zero, suc, ◌+◌, ◌-◌, ◌*◌, ◌≤◌, ◌<◌, min, ◌≡◌, sym, ap, ◌∙◌, List, ◌++◌, append-nil,
  append_assoc, arith, length, take, drop, length-append, take-append-drop, length-take,
  length-drop, take-append, drop-drop, drop_past, take_past,
}
use multi_delegator.Loader.{chunk_size}
use native.Mathlib.Decide.{dec_le}
use multi_delegator.Loader.Plan.{chunk_at}

-- the buffer's data with the bytes written at the offset
abbrev pub write_at : ℕ → List ℕ → List ℕ → List ℕ
write_at offset chunk buffer = take offset buffer ++ chunk ++ drop (offset + length chunk) buffer

-- the writes of `remaining` chunks from chunk `i` on
abbrev pub write_from : (remaining : ℕ) → List ℕ → ℕ → List ℕ → List ℕ
write_from zero so_bytes i buffer = buffer
write_from (suc remaining) so_bytes i buffer =
    write_from remaining so_bytes (i + 1) (write_at (i * chunk_size) (chunk_at so_bytes i) buffer)

pub length-write_at :
    (offset : ℕ) (chunk buffer : List ℕ)
    → offset + length chunk ≤ length buffer
    → length (write_at offset chunk buffer) ≡ length buffer
length-write_at offset chunk buffer h = omega (
  arith,
  length-append (take offset buffer ++ chunk) (drop (offset + length chunk) buffer),
  length-append (take offset buffer) chunk,
  length-take offset buffer,
  length-drop (offset + length chunk) buffer,
)

-- the bytes up to the end of the chunk: the old ones before it, and the chunk
take-write_at :
    (offset : ℕ) (chunk buffer : List ℕ)
    → offset ≤ length buffer
    → take (offset + length chunk) (write_at offset chunk buffer) ≡ take offset buffer ++ chunk
take-write_at offset chunk buffer within =
    let front = take offset buffer ++ chunk in
    let back = drop (offset + length chunk) buffer in
    let reach : offset + length chunk ≡ length front =
      omega (arith, length-append (take offset buffer) chunk, length-take offset buffer) in
    ap (λ k. take k (front ++ back)) reach ∙ take-append front back

-- The same up to any later place, where the chunk reaches the end of the buffer.
take-write_at_end :
    (n offset : ℕ) (chunk buffer : List ℕ)
    → offset + length chunk ≡ length buffer
    → length buffer ≤ n
    → take n (write_at offset chunk buffer) ≡ take offset buffer ++ chunk
take-write_at_end n offset chunk buffer reach le =
    take_past n (write_at offset chunk buffer)
      (omega (arith, length-write_at offset chunk buffer (omega (arith, reach))))
    ∙ ap (λ t. (take offset buffer ++ chunk) ++ t)
        (drop_past (offset + length chunk) buffer (omega (arith, reach)))
    ∙ append-nil (take offset buffer ++ chunk)

pub length-chunk_at :
    (so_bytes : List ℕ) (i : ℕ)
    → length (chunk_at so_bytes i) ≡ min chunk_size (length so_bytes - i * chunk_size)
length-chunk_at so_bytes i = omega (
  arith,
  length-take (i * chunk_size + chunk_size - i * chunk_size) (drop (i * chunk_size) so_bytes),
  length-drop (i * chunk_size) so_bytes,
)

-- a chunk, and what follows it
chunk_at-append-drop :
    (so_bytes : List ℕ) (i : ℕ)
    → chunk_at so_bytes i ++ drop ((i + 1) * chunk_size) so_bytes ≡ drop (i * chunk_size) so_bytes
chunk_at-append-drop so_bytes i =
    let rest = drop (i * chunk_size) so_bytes in
    let size : i * chunk_size + chunk_size - i * chunk_size ≡ chunk_size = omega arith in
    let next : i * chunk_size + chunk_size ≡ (i + 1) * chunk_size = omega arith in
    let tail = drop-drop (i * chunk_size) chunk_size so_bytes ∙ ap (λ k. drop k so_bytes) next in
    rw (size, sym tail) (take-append-drop chunk_size rest)

take-write_at-chunk :
    (so_bytes buffer : List ℕ) (i : ℕ)
    → length buffer ≡ length so_bytes
    → i * chunk_size ≤ length so_bytes
    → take ((i + 1) * chunk_size) (write_at (i * chunk_size) (chunk_at so_bytes i) buffer)
      ≡ take (i * chunk_size) buffer ++ chunk_at so_bytes i
take-write_at-chunk so_bytes buffer i same within =
    let size = length-chunk_at so_bytes i in
    elim (dec_le ((i + 1) * chunk_size) (length so_bytes)) [
      | yes le ↦
          ap (λ k. take k (write_at (i * chunk_size) (chunk_at so_bytes i) buffer))
            (omega (arith, size, le))
          ∙ take-write_at (i * chunk_size) (chunk_at so_bytes i) buffer
              (omega (arith, same, within))
      | no gt ↦
          take-write_at_end ((i + 1) * chunk_size) (i * chunk_size) (chunk_at so_bytes i) buffer
            (omega (arith, size, same, within, gt)) (omega (arith, same, gt))
    ]

pub write_from-full :
    (remaining i : ℕ) (so_bytes buffer : List ℕ)
    → length buffer ≡ length so_bytes
    → length so_bytes ≤ (i + remaining) * chunk_size
    → (i + remaining) * chunk_size < length so_bytes + chunk_size
    → write_from remaining so_bytes i buffer
      ≡ take (i * chunk_size) buffer ++ drop (i * chunk_size) so_bytes
write_from-full zero i so_bytes buffer same enough few = sym (
    (λ k.
      take_past (i * chunk_size) buffer (omega (arith, same, enough)) k
      ++ drop_past (i * chunk_size) so_bytes (omega (arith, enough)) k)
    ∙ append-nil buffer)
write_from-full (suc remaining) i so_bytes buffer same enough few =
    let chunk = chunk_at so_bytes i in
    let written = write_at (i * chunk_size) chunk buffer in
    let size = length-chunk_at so_bytes i in
    let kept = length-write_at (i * chunk_size) chunk buffer (omega (arith, size, same, few)) in
    let rest =
      write_from-full remaining (i + 1) so_bytes written (kept ∙ same) (omega (arith, enough))
        (omega (arith, few)) in
    rest
    ∙ ap (λ t. t ++ drop ((i + 1) * chunk_size) so_bytes)
        (take-write_at-chunk so_bytes buffer i same (omega (arith, few)))
    ∙ append_assoc (take (i * chunk_size) buffer) chunk (drop ((i + 1) * chunk_size) so_bytes)
    ∙ ap (λ t. take (i * chunk_size) buffer ++ t) (chunk_at-append-drop so_bytes i)
