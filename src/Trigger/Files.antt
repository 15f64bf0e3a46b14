-- ===== src/Trigger/Files.antt =====
-- The name of the file that statistics are written to: tstats_build_filename of
-- libubx/trig_utils.c, and char_replace of libubx/ubx_utils.c.
use microblx.Base.{
  ℕ, ◌+◌, ◌-◌, ◌≡◌, not, Option, none, some, [], ◌∷◌, ◌++◌, length, take, ◌==◌, if◌then◌else◌, map,
}
use microblx.Store.{CStr, Heap, alloc, free}

unfoldable pub char_replace : CStr → ℕ → ℕ → CStr
char_replace s find rep = map (λ c. if c == find then rep else c) s

-- ".tstats"
abbrev pub extension : CStr
extension = 46 ∷ 116 ∷ 115 ∷ 116 ∷ 97 ∷ 116 ∷ 115 ∷ []

-- ".tstat"
abbrev pub cut_extension : CStr
cut_extension = 46 ∷ 116 ∷ 115 ∷ 116 ∷ 97 ∷ 116 ∷ []

abbrev pub slash : ℕ
slash = 47

abbrev pub dash : ℕ
dash = 45

-- snprintf writes one character less than the size that it is given, which is the length here.
unfoldable pub tstats_build_filename : CStr → CStr → Heap → Option CStr × Heap
tstats_build_filename name profile_path h =
    let (duped, h1) = alloc h in
    let n = char_replace name slash dash in
    let len = length profile_path + 1 + length n + length extension in
    let (got, h2) = alloc h1 in
    if not duped
    then (none, h1)
    else if not got
    then (none, free h2)
    else (some (take (len - 1) (profile_path ++ (slash ∷ n ++ extension))), free h2)

-- What a call may end with: no name, and all memory given back, or a name that lacks its last
-- character, and one allocation that the caller has to free.
pub data FileOutcome (name profile_path : CStr) (h : Heap) (out : Option CStr × Heap) : Type 0 where
  no_memory : out.0 ≡ none → out.1.live ≡ h.live → FileOutcome name profile_path h out
  named :
      out.0 ≡ some (profile_path ++ (slash ∷ char_replace name slash dash ++ cut_extension))
      → out.1.live ≡ h.live + 1
      → FileOutcome name profile_path h out
