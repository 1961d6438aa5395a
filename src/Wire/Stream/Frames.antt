-- ===== src/Wire/Stream/Frames.antt =====
-- However the bytes are cut into pieces, the callback gets the messages that were sent.
use mobile_chatting_app.Common.{
  ℕ, zero, suc, ◌≤◌, ◌<◌, ◌≡◌, refl, ap, ◌∙◌, true, false, List, [], ◌∷◌, ◌++◌, append_assoc,
  append-nil, Bool-cases, inl, inr, length, get_or, take, drop, length-append, length-drop, All,
  arith, take-append_length, drop-append_length,
}
use mobile_chatting_app.Common.Bytes.{Bytes}
use mobile_chatting_app.Wire.Word.{load32, htonl-lt}
use mobile_chatting_app.Wire.Stream.{total_size, is_complete, extract, receive_loop}

get_or-append : (b c : Bytes) (i d : ℕ) → i < length b → get_or (b ++ c) i d ≡ get_or b i d
get_or-append [] c i d h = elim h [ ]
get_or-append (x ∷ b) c zero d h = refl
get_or-append (x ∷ b) c (suc i) d h = get_or-append b c i d (omega arith)

take-append : (n : ℕ) (b c : Bytes) → n ≤ length b → take n (b ++ c) ≡ take n b
take-append zero b c h = refl
take-append (suc n) [] c h = elim h [ ]
take-append (suc n) (x ∷ b) c h = ap (λ t. x ∷ t) (take-append n b c (omega arith))

drop-append : (n : ℕ) (b c : Bytes) → n ≤ length b → drop n (b ++ c) ≡ drop n b ++ c
drop-append zero b c h = refl
drop-append (suc n) [] c h = elim h [ ]
drop-append (suc n) (x ∷ b) c h = drop-append n b c (omega arith)

total_size-append : (b c : Bytes) → 32 ≤ length b → total_size (b ++ c) ≡ total_size b
unfolding total_size
total_size-append b c h = ground (
  arith,
  get_or-append b c 6 0,
  get_or-append b c 7 0,
  get_or-append b c 8 0,
  get_or-append b c 9 0,
)

total_size-ge : (b : Bytes) → 32 ≤ total_size b
unfolding total_size
total_size-ge b = omega (arith, htonl-lt (load32 b 6))

-- Fuel at least the number of bytes is enough.
extract_fuel : (f g : ℕ) (b : Bytes) → length b ≤ f → length b ≤ g → extract f b ≡ extract g b
unfolding extract
extract_fuel zero zero b hf hg = refl
extract_fuel zero (suc g) b hf hg = ground arith
extract_fuel (suc f) zero b hf hg = ground arith
extract_fuel (suc f) (suc g) b hf hg =
    ground (
      arith,
      total_size-ge b,
      length-drop (total_size b) b,
      extract_fuel f g (drop (total_size b) b),
    )

abbrev run : Bytes → List Bytes × Bytes
run b = extract (length b) b

extract_complete :
    (f : ℕ) (b : Bytes)
    → is_complete b ≡ true
    → extract (suc f) b ≡ (
      take (total_size b) b ∷ (extract f (drop (total_size b) b)).0,
      (extract f (drop (total_size b) b)).1,
    )
unfolding extract
extract_complete f b h = rw h

length-drop_lt : (b : Bytes) → is_complete b ≡ true → length (drop (total_size b) b) < length b
length-drop_lt b h = ground (arith, total_size-ge b, length-drop (total_size b) b)

run_complete :
    (b : Bytes)
    → is_complete b ≡ true
    → run b
      ≡ (take (total_size b) b ∷ (run (drop (total_size b) b)).0, (run (drop (total_size b) b)).1)
run_complete b h =
    let rest = drop (total_size b) b in
    extract_fuel (length b) (suc (length b)) b (omega arith) (omega arith)
    ∙ extract_complete (length b) b h
    ∙ rw (
        extract_fuel (length b) (length rest) rest (omega (arith, length-drop_lt b h))
          (omega arith))

run_incomplete : (b : Bytes) → is_complete b ≡ false → run b ≡ ([], b)
run_incomplete b h =
    extract_fuel (length b) (suc (length b)) b (omega arith) (omega arith) ∙ unfold extract in rw h

is_complete-append : (b c : Bytes) → is_complete b ≡ true → is_complete (b ++ c) ≡ true
is_complete-append b c h = ground (arith, total_size-append b c, length-append b c)

-- What comes later is processed behind what was left.
run-append :
    (f : ℕ) (b c : Bytes)
    → length b ≤ f
    → run (b ++ c) ≡ ((run b).0 ++ (run ((run b).1 ++ c)).0, (run ((run b).1 ++ c)).1)
run-append zero b c h = rw (run_incomplete b (ground arith))
run-append (suc f) b c h = elim (Bool-cases (is_complete b)) [
  | inl whole ↦
      let rest = drop (total_size b) b in
      let fits : total_size b ≤ length b = ground arith in
      rw (
        run_complete (b ++ c) (is_complete-append b c whole),
        total_size-append b c (ground arith),
        take-append (total_size b) b c fits,
        drop-append (total_size b) b c fits,
        run-append f rest c (omega (arith, length-drop_lt b whole)),
        run_complete b whole,
      )
  | inr part ↦ rw (run_incomplete b part)
]

-- Nothing whole is left behind.
run_idle : (f : ℕ) (b : Bytes) → length b ≤ f → run (run b).1 ≡ ([], (run b).1)
run_idle zero b h = let part = run_incomplete b (ground arith) in rw (part, part)
run_idle (suc f) b h = elim (Bool-cases (is_complete b)) [
  | inl whole ↦
      rw (run_complete b whole)
        (run_idle f (drop (total_size b) b) (omega (arith, length-drop_lt b whole)))
  | inr part ↦ rw (run_incomplete b part, run_incomplete b part)
]

abbrev pub flat : List Bytes → Bytes
flat [] = []
flat (p ∷ ps) = p ++ flat ps

receive_loop-run :
    (pieces : List Bytes) (buf : Bytes)
    → run buf ≡ ([], buf)
    → receive_loop pieces buf ≡ run (buf ++ flat pieces)
unfolding receive_loop
receive_loop-run [] buf idle = rw (append-nil buf, idle)
receive_loop-run (p ∷ ps) buf idle = rw (
  receive_loop-run ps (run (buf ++ p)).1 (run_idle (length (buf ++ p)) (buf ++ p) (omega arith)),
  ← append_assoc buf p (flat ps),
  run-append (length (buf ++ p)) (buf ++ p) (flat ps) (omega arith),
)

-- A message whose length field gives its size.
abbrev pub IsMessage : Bytes → Type 0
IsMessage m = (32 ≤ length m) × (total_size m ≡ length m)

run-flat : (ms : List Bytes) → All IsMessage ms → run (flat ms) ≡ (ms, [])
run-flat [] h = unfold extract in refl
run-flat (m ∷ ms) ((hs, ht), h) =
    let size = total_size-append m (flat ms) hs in
    rw (
      run_complete (m ++ flat ms) (ground (arith, size, length-append m (flat ms))),
      size,
      ht,
      take-append_length m (flat ms),
      drop-append_length m (flat ms),
      run-flat ms h,
    )

-- However the bytes of the messages are cut into the pieces that `recv` returns, the callback gets
-- exactly these messages, in their order, and no byte is left in the buffer.
pub receive_loop-flat :
    (ms pieces : List Bytes)
    → All IsMessage ms
    → flat pieces ≡ flat ms
    → receive_loop pieces [] ≡ (ms, [])
receive_loop-flat ms pieces h e =
    receive_loop-run pieces [] (unfold extract in refl) ∙ rw e (run-flat ms h)
