-- ===== src/Generation/Commit/Files.antt =====
-- The files and directories of a target root, and the operations of the file system that a commit calls.
use Prim.Native.String.{◌++◌ as ◌<>◌}
use text.Mathlib.Text.{starts_with}
use unified_software_commerc.Prelude.{
  ℕ, String, Bool, true, not, ◌&&◌, Option, none, some, List, [], ◌∷◌, ◌++◌, map, any, ◌==◌,
  if◌then◌else◌, ◌≡◌, arith, eq_iff,
}
use unified_software_commerc.Generation.Inspect.{regular, directory, Workspace}

pub record File : Type 0 where
  pub bytes : List ℕ
  pub mode : ℕ

pub record Tree : Type 0 where
  pub files : List (String × File)
  pub directories : List String

unfoldable pub lookup {ℓ} : {A : Type ℓ} → String → List (String × A) → Option A
lookup path [] = none
lookup path ((name, a) ∷ rest) =
    let later = lookup path rest in if name == path then some a else later

unfoldable pub remove {ℓ} : {A : Type ℓ} → String → List (String × A) → List (String × A)
remove path [] = []
remove path ((name, a) ∷ rest) =
    let kept = remove path rest in if name == path then kept else (name, a) ∷ kept

-- `os.Rename` onto a path: the file that is there is replaced.
unfoldable pub put {ℓ} : {A : Type ℓ} → String → A → List (String × A) → List (String × A)
unfolding remove
put path a files = (path, a) ∷ remove path files

unfoldable pub has_directory : String → Tree → Bool
has_directory path t = any (λ d. d == path) t.directories

-- Nothing lies below the directory.
unfoldable pub is_empty : String → Tree → Bool
is_empty path t =
    not (any (λ d. starts_with d (path <> "/")) t.directories)
    && not (any (λ (e : String × File). starts_with e.0 (path <> "/")) t.files)

unfoldable pub drop_directory : String → List String → List String
drop_directory d [] = []
drop_directory d (e ∷ es) = let rest = drop_directory d es in if e == d then rest else e ∷ rest

unfoldable pub workspace_of : Tree → Workspace
workspace_of t = record {
  root_safe = true;
  entries =
      map (λ d. (d, directory)) t.directories
      ++ map (λ (e : String × File). (e.0, regular e.1.bytes)) t.files;
}

-- Two trees with the same files and directories.
pub record SameTree (t u : Tree) : Type 0 where
  pub same_files : (path : String) → lookup path t.files ≡ lookup path u.files
  pub same_directories : (path : String) → has_directory path t ≡ has_directory path u

module _ {ℓ} {A : Type ℓ} where
  pub lookup-remove :
      (p q : String) (files : List (String × A))
      → lookup q (remove p files) ≡ (if p == q then none else lookup q files)
  unfolding lookup remove
  lookup-remove p q [] = ground arith
  lookup-remove p q ((name, a) ∷ files) =
      ground (arith, eq_iff p q, eq_iff name p, eq_iff name q, lookup-remove p q files)

  pub lookup-put :
      (p q : String) (a : A) (files : List (String × A))
      → lookup q (put p a files) ≡ (if p == q then some a else lookup q files)
  unfolding lookup put
  lookup-put p q a files = ground (arith, lookup-remove p q files)
