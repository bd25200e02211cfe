-- ===== src/Hdd/Open/Buffer.antt =====
-- The loop of `PS2HDD::open` that writes the path into `atad_device_path`.
use ps2hdd_rs.Prelude.{
  ℕ, suc, ◌+◌, ◌<◌, ◌≡◌, Text, [], ◌∷◌, ◌++◌, true, false, ltb, ◌==◌, length, drop, length-append,
  set-append, append_assoc, arith, ok,
}
use ps2hdd_rs.Hdd.Open.{write_at, write_byte, write_bytes}

write_at-append :
    (before : Text) (x v : ℕ) (after : Text)
    → write_at (length before) v (before ++ x ∷ after) ≡ ok (before ++ v ∷ after)
unfolding write_at
write_at-append before x v after =
    let inside : ltb (length before) (length (before ++ x ∷ after)) ≡ true =
      ground (arith, length-append before (x ∷ after)) in
    rw (inside, set-append before x v after)

-- The cell behind.
write_at-next :
    (before : Text) (x y v : ℕ) (after : Text)
    → write_at (length before + 1) v (before ++ x ∷ y ∷ after) ≡ ok (before ++ x ∷ v ∷ after)
write_at-next before x y v after =
    rw
      (
        length-append before (x ∷ []),
        append_assoc before (x ∷ []) (y ∷ after),
        append_assoc before (x ∷ []) (v ∷ after),
      )
      at (write_at-append (before ++ x ∷ []) y v after)

write_byte-inner :
    (n : ℕ) (before : Text) (x v : ℕ) (after : Text)
    → (length before + 1 == n) ≡ false
    → write_byte n (length before) v (before ++ x ∷ after) ≡ ok (before ++ v ∷ after)
unfolding write_byte
write_byte-inner n before x v after h = rw (write_at-append before x v after, h)

write_byte-last :
    (n : ℕ) (before : Text) (x v y : ℕ) (after : Text)
    → (length before + 1 == n) ≡ true
    → write_byte n (length before) v (before ++ x ∷ y ∷ after) ≡ ok (before ++ v ∷ 0 ∷ after)
unfolding write_byte
write_byte-last n before x v y after h =
    rw (write_at-append before x v (y ∷ after), h) (write_at-next before v y 0 after)

-- A text that is not empty and leaves room is written with a NUL behind it; what stands before and
-- after these bytes stays.
write_bytes-append :
    (n : ℕ) (before name cells : Text)
    → length before + length name ≡ n
    → 0 < length name
    → length name < length cells
    → write_bytes n (length before) name (before ++ cells)
      ≡ ok (before ++ (name ++ 0 ∷ drop (suc (length name)) cells))
unfolding write_bytes
write_bytes-append n before [] cells e h k = absurd (omega arith)
write_bytes-append n before (v ∷ []) [] e h k = absurd (omega arith)
write_bytes-append n before (v ∷ []) (x ∷ []) e h k = absurd (omega arith)
write_bytes-append n before (v ∷ []) (x ∷ y ∷ cells) e h k =
    rw (write_byte-last n before x v y cells (ground arith))
write_bytes-append n before (v ∷ u ∷ name) [] e h k = absurd (omega arith)
write_bytes-append n before (v ∷ u ∷ name) (x ∷ cells) e h k =
    let more : (length before + 1 == n) ≡ false = ground arith in
    let width = length-append before (v ∷ []) in
    rw (write_byte-inner n before x v cells more) (
      rw
        (
          width,
          append_assoc before (v ∷ []) cells,
          append_assoc before (v ∷ []) (u ∷ (name ++ 0 ∷ drop (suc (length (u ∷ name))) cells)),
        )
        at
        (write_bytes-append n (before ++ v ∷ []) (u ∷ name) cells (omega (arith, width))
          (omega arith) (omega arith)))

-- The whole path: the array then reads as the path.
pub write_bytes_lem :
    (name cells : Text)
    → 0 < length name
    → length name < length cells
    → write_bytes (length name) 0 name cells ≡ ok (name ++ 0 ∷ drop (suc (length name)) cells)
write_bytes_lem name cells h k = write_bytes-append (length name) [] name cells (omega arith) h k
