-- ===== src/Logging/FileName.antt =====
-- file_name_from_path: the part of a path behind its last separator.
use slick_net.Prelude.{
  ℕ, ◌≡◌, refl, ap, ◌∙◌, Bool, true, false, ◌||◌, [], ◌∷◌, ◌++◌, Bytes, ◌==◌, if◌then◌else◌,
  Bool-cases, inl, inr, arith, append_assoc, append-nil,
}

-- '/' and '\\'
abbrev pub is_separator : ℕ → Bool
is_separator c = (c == 47) || (c == 92)

-- The loop over current, where file_name is what it has found so far: it points behind a separator, or at the start.
unfoldable pub from_path : Bytes → Bytes → Bytes
from_path file_name [] = file_name
from_path file_name (c ∷ rest) =
    let behind = from_path rest rest in
    let same = from_path file_name rest in if is_separator c then behind else same

unfoldable pub file_name_from_path : Bytes → Bytes
unfolding from_path
file_name_from_path path = from_path path path

abbrev pub has_none : Bytes → Bool
has_none [] = true
has_none (c ∷ l) = if is_separator c then false else has_none l

-- A directory is empty, or ends in a separator.
pub data IsDirectory : Bytes → Type 0 where
  here : IsDirectory []
  in_directory : (l : Bytes) (c : ℕ) → is_separator c ≡ true → IsDirectory (l ++ c ∷ [])

-- A path is the directory and the name.
pub record Split (path name : Bytes) : Type 0 where
  pub directory : Bytes
  pub joined : path ≡ directory ++ name
  pub ends : IsDirectory directory
  pub flat : has_none name ≡ true

none-append :
    (l : Bytes) (c : ℕ) (r : Bytes)
    → has_none l ≡ true
    → is_separator c ≡ false
    → has_none (l ++ c ∷ []) ≡ true
none-append [] c r e n = ground arith
none-append (x ∷ l) c r e n = ground (arith, none-append l c r)

-- The loop at a place in a path, where the name so far is known up to there.
from_path-Split :
    (path dir name seen rest : Bytes)
    → path ≡ dir ++ name
    → name ≡ seen ++ rest
    → IsDirectory dir
    → has_none seen ≡ true
    → Split path (from_path name rest)
unfolding from_path
from_path-Split path dir name seen [] p q d n = record {
  directory = dir;
  joined = p;
  ends = d;
  flat = ap has_none (q ∙ append-nil seen) ∙ n;
}
from_path-Split path dir name seen (c ∷ rest) p q d n = elim (Bool-cases (is_separator c)) [
  | inl y ↦ rw y (
      from_path-Split path (dir ++ seen ++ c ∷ []) rest [] rest (simp (p, q, append_assoc)) refl
        (in_directory (dir ++ seen) c y) refl)
  | inr f ↦ rw f (
      from_path-Split path dir name (seen ++ c ∷ []) rest p (q ∙ simp append_assoc) d
        (none-append seen c rest n f))
]

-- The name of a file is what is behind the last separator of its path, and the whole path where there is none:
-- the path is a directory, which is empty or ends in a separator, followed by the name, and the name has no
-- separator.
pub file_name_from_path-Split : (path : Bytes) → Split path (file_name_from_path path)
unfolding file_name_from_path
file_name_from_path-Split path = from_path-Split path [] path [] path refl refl here refl
