-- ===== src/Boot/Import.antt =====
-- src/runtime.rs: `import_app`. A text is the list of its characters.
use rustasgi.Base.{
  ℕ, Bool, true, false, not, ◌||◌, List, [], ◌∷◌, Option, none, some, is_empty, any, if◌then◌else◌,
  ◌==◌, Result, ok, err, ◌>>=◌, ◌>>◌, guard, ok_or,
}
use rustasgi.Base.Text.{bytes_eq, codes, split}
use rustasgi.Base.Words.{strip_suffix}
use rustasgi.Message.{get_or}
use rustasgi.Tls.Sni.{split_once}

pub data ImportError : Type 0 where
  -- "app must be in the form 'module:attr', e.g. 'app:app'".
  bad_form : ImportError
  -- "invalid empty attribute in app spec".
  empty_attribute : ImportError
  -- An exception of Python, passed on by `?`.
  raised : ImportError

-- Python's import machinery, as the function uses it; `none` is an exception.
pub record Modules : Type 1 where
  pub Obj : Type 0
  pub getcwd : Option (List ℕ)
  pub import_module : List ℕ → Option Obj
  pub getattr : Obj → List ℕ → Option Obj
  pub call0 : Obj → Option Obj

-- `path.__contains__(cwd)` on the list `sys.path`.
abbrev on_path : List ℕ → List (List ℕ) → Bool
on_path dir = any (λ d. bytes_eq d dir)

unfoldable pub add_cwd : List ℕ → List (List ℕ) → List (List ℕ)
add_cwd dir path = if on_path dir path then path else dir ∷ path

abbrev pub is_some : Option (List ℕ) → Bool
is_some none = false
is_some (some _) = true

module _ (py : Modules) where
  -- The loop over the dotted attributes.
  unfoldable pub walk : py.Obj → List (List ℕ) → Result ImportError py.Obj
  walk current [] = ok current
  walk current (part ∷ parts) = do
    guard (not (is_empty part)) empty_attribute
    next ← ok_or (py.getattr current part) raised
    walk next parts

  -- The optional call of a factory.
  abbrev pub called : Bool → py.Obj → Result ImportError py.Obj
  called false current = ok current
  called true current = ok_or (py.call0 current) raised

  -- `module_name` and `attr`, once the directory is on the path.
  unfoldable pub load : List ℕ → List ℕ → Result ImportError py.Obj
  unfolding walk
  load module_name attr = do
    guard (not (is_empty module_name || is_empty attr)) bad_form
    current ← ok_or (py.import_module module_name) raised
    let factory = strip_suffix (codes "()") attr
    app ← walk current (split (λ c. c == b'.') (get_or factory attr))
    called (is_some factory) app

  -- The two parts of `spec.split_once(':')`.
  unfoldable pub load_parts : Option (List ℕ × List ℕ) → Result ImportError py.Obj
  load_parts none = err bad_form
  load_parts (some (module_name, attr)) = load module_name attr

  -- The new `sys.path`, which stays changed on an error, and the application.
  unfoldable pub import_from :
      Option (List ℕ) → List (List ℕ) → List ℕ → List (List ℕ) × Result ImportError py.Obj
  import_from none path spec = (path, err raised)
  import_from (some dir) path spec = (add_cwd dir path, load_parts (split_once spec))

  unfoldable pub import_app : List (List ℕ) → List ℕ → List (List ℕ) × Result ImportError py.Obj
  import_app path spec = import_from py.getcwd path spec
