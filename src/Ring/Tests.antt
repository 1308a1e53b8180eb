-- ===== src/Ring/Tests.antt =====
-- The theorems on router/buffer.go at buffers of four bytes.
use multi_terminal.Base.{
  ◌<◌, ◌≡◌, refl, false, none, some, [], ◌∷◌, ◌++◌, length, take, drop, arith,
}
use multi_terminal.Ring.{RingBuffer, buffer_full, new_ring, write, try_read}
use multi_terminal.Ring.Contents.{IsValid, contents}
use multi_terminal.Ring.Refine.{write_refines, try_read_refines}
use multi_terminal.Ring.Flow.{Flow, wrote, took, done, new_ring_stream}
use multi_terminal.Ring.Faults.{write_full_overwrites}

-- Two bytes wait, round the end of the storage.
abbrev wrapped : RingBuffer
wrapped = record { bytes = 11 ∷ 12 ∷ 13 ∷ 14 ∷ []; write = 5; read = 3; closed = false }

wrapped-IsValid : IsValid 4 wrapped
wrapped-IsValid = record {
  positive = omega arith;
  storage = refl;
  ordered = omega arith;
  bounded = omega arith;
}

-- No byte is free.
abbrev full : RingBuffer
full = record { bytes = 11 ∷ 12 ∷ 13 ∷ 14 ∷ []; write = 6; read = 2; closed = false }

full-IsValid : IsValid 4 full
full-IsValid = record {
  positive = omega arith;
  storage = refl;
  ordered = omega arith;
  bounded = omega arith;
}

-- One byte waits, before the end of the storage.
abbrev nearly_empty : RingBuffer
nearly_empty = record { bytes = 11 ∷ 12 ∷ 13 ∷ 14 ∷ []; write = 2; read = 1; closed = false }

nearly_empty-IsValid : IsValid 4 nearly_empty
nearly_empty-IsValid = record {
  positive = omega arith;
  storage = refl;
  ordered = omega arith;
  bounded = omega arith;
}

write_refines_example :
    let w = write 4 wrapped (21 ∷ 22 ∷ []) in
    (w.error ≡ none)
    × (w.count ≡ 2)
    × (contents 4 w.ring ≡ contents 4 wrapped ++ take w.count (21 ∷ 22 ∷ []))
    × IsValid 4 w.ring
write_refines_example =
    write_refines 4 {rb = wrapped} (21 ∷ 22 ∷ []) wrapped-IsValid refl (omega arith)

try_read_refines_example :
    let t = try_read 4 wrapped 3 in
    (t.got ≡ take 3 (contents 4 wrapped))
    × (t.count ≡ length t.got)
    × (contents 4 t.ring ≡ drop 3 (contents 4 wrapped))
    × (t.error ≡ none)
    × IsValid 4 t.ring
try_read_refines_example = try_read_refines 4 {rb = wrapped} 3 wrapped-IsValid

-- Two bytes in, one out.
one_waits :
    Flow 4
      (try_read 4 (write 4 (new_ring 4) (21 ∷ 22 ∷ [])).ring 1).ring
      (new_ring 4)
      (take (write 4 (new_ring 4) (21 ∷ 22 ∷ [])).count (21 ∷ 22 ∷ []) ++ [])
      ((try_read 4 (write 4 (new_ring 4) (21 ∷ 22 ∷ [])).ring 1).got ++ [])
unfolding new_ring
one_waits = wrote (21 ∷ 22 ∷ []) (omega arith) (took 1 done)

new_ring_stream_example :
    let w = write 4 (new_ring 4) (21 ∷ 22 ∷ []) in
    let t = try_read 4 w.ring 1 in
    (take w.count (21 ∷ 22 ∷ []) ++ [] ≡ (t.got ++ []) ++ contents 4 t.ring) × IsValid 4 t.ring
new_ring_stream_example = new_ring_stream 4 (omega arith) one_waits

write_full_overwrites_example :
    let w = write 4 full (21 ∷ []) in
    (w.error ≡ some buffer_full) × (0 < w.count) × ((try_read 4 w.ring 1).got ≡ 21 ∷ [])
write_full_overwrites_example = write_full_overwrites 4 full 21 [] full-IsValid refl refl
