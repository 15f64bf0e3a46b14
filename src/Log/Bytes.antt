-- ===== src/Log/Bytes.antt =====
-- Frames that are written to the bytes of the log, and read again.
use microblx.Base.{
  ℕ, zero, suc, ◌+◌, ◌≤◌, ◌<◌, ◌≡◌, refl, ap₂, ◌∙◌, List, [], ◌∷◌, length, arith, ◌⊎◌, inl, inr,
}
use microblx.Log.{put_bytes, get_bytes}

-- A byte in front of what is written is left alone.
put_bytes_front :
    (off : ℕ) (bs : List ℕ) (bytes : ℕ → ℕ) (x : ℕ) → x < off → put_bytes off bs bytes x ≡ bytes x
unfolding put_bytes
put_bytes_front off [] bytes x h = refl
put_bytes_front off (b ∷ bs) bytes x h = ground (arith, put_bytes_front (suc off) bs bytes x)

put_bytes_back :
    (off : ℕ) (bs : List ℕ) (bytes : ℕ → ℕ) (x : ℕ)
    → off + length bs ≤ x
    → put_bytes off bs bytes x ≡ bytes x
unfolding put_bytes
put_bytes_back off [] bytes x h = refl
put_bytes_back off (b ∷ bs) bytes x h = ground (arith, put_bytes_back (suc off) bs bytes x)

-- A frame that does not overlap with what is written is left alone.
pub get_bytes-put_bytes_apart :
    (off n at : ℕ) (bs : List ℕ) (bytes : ℕ → ℕ)
    → (off + n ≤ at) ⊎ (at + length bs ≤ off)
    → get_bytes off n (put_bytes at bs bytes) ≡ get_bytes off n bytes
unfolding get_bytes
get_bytes-put_bytes_apart off zero at bs bytes h = refl
get_bytes-put_bytes_apart off (suc n) at bs bytes (inl h) =
    ap₂ ◌∷◌ (put_bytes_front at bs bytes off (omega arith))
      (get_bytes-put_bytes_apart (suc off) n at bs bytes (inl (omega arith)))
get_bytes-put_bytes_apart off (suc n) at bs bytes (inr h) =
    ap₂ ◌∷◌ (put_bytes_back at bs bytes off h)
      (get_bytes-put_bytes_apart (suc off) n at bs bytes (inr (omega arith)))

get_bytes_ext :
    (off n : ℕ) (f g : ℕ → ℕ)
    → ((x : ℕ) → off ≤ x → f x ≡ g x)
    → get_bytes off n f ≡ get_bytes off n g
unfolding get_bytes
get_bytes_ext off zero f g h = refl
get_bytes_ext off (suc n) f g h =
    ap₂ ◌∷◌ (h off (omega arith)) (get_bytes_ext (suc off) n f g (λ x le. h x (omega arith)))

-- A frame that was written is read back.
pub get_bytes-put_bytes :
    (off : ℕ) (bs : List ℕ) (bytes : ℕ → ℕ)
    → get_bytes off (length bs) (put_bytes off bs bytes) ≡ bs
unfolding get_bytes put_bytes
get_bytes-put_bytes off [] bytes = refl
get_bytes-put_bytes off (b ∷ bs) bytes = ap₂ ◌∷◌ (ground arith) (
    get_bytes_ext (suc off) (length bs) (put_bytes off (b ∷ bs) bytes)
      (put_bytes (suc off) bs bytes) (λ x le. ground arith)
    ∙ get_bytes-put_bytes (suc off) bs bytes)
