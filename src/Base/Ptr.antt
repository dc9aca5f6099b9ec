-- ===== src/Base/Ptr.antt =====
-- A pointer that may be the error value (`ptrerror` and `is_err` of utils.c), and `fgets` on the lines
-- that are left of a file.
use idlestat.Base.{ℕ, Bool, true, false, Option, some, List, [], ◌∷◌}

pub data Ptr {ℓ} (A : Type ℓ) : Type ℓ where
  err_ptr : Ptr A
  ptr : A → Ptr A

abbrev pub is_err {ℓ} : {A : Type ℓ} → Ptr A → Bool
is_err err_ptr = true
is_err (ptr a) = false

-- A step that may fault, on what a pointer points to; the error is passed on.
abbrev pub with_ptr {ℓ κ} :
    {A : Type ℓ} {B : Type κ} → Ptr A → (A → Option (Ptr B)) → Option (Ptr B)
with_ptr err_ptr f = some err_ptr
with_ptr (ptr a) f = f a

-- At the end of the file the buffer keeps what it had.
abbrev pub fgets : List ℕ → List (List ℕ) → List ℕ × List (List ℕ)
fgets buffer [] = (buffer, [])
fgets buffer (line ∷ lines) = (line, lines)
