-- ===== src/Boot/ImportLaws.antt =====
-- An application's specifier is read as it is written (src/runtime.rs).
use rustasgi.Base.{
  ℕ, ◌≡◌, refl, ap, ◌∙◌, Bool, true, false, List, [], ◌∷◌, ◌++◌, Option, none, some, is_empty, All,
  if◌then◌else◌, ◌==◌, ◌>>=◌, ok_or, arith,
}
use rustasgi.Base.Text.{codes, contains, split}
use rustasgi.Base.Words.{join, all_without, split-join, strip_suffix, strip_suffix-append}
use rustasgi.Message.{get_or}
use rustasgi.Tls.Sni.{split_once}
use rustasgi.Boot.Import.{
  raised, Modules, add_cwd, is_some, walk, called, load, load_parts, import_from, import_app,
}
use mathlib.Core.List.{append-nil}

split_once-append :
    (m s : List ℕ) → contains b':' m ≡ false → split_once (m ++ b':' ∷ s) ≡ some (m, s)
unfolding split_once contains
split_once-append [] s h = ground arith
split_once-append (c ∷ m) s h = ground (arith, split_once-append m s)

-- `module:attr.attr` or `module:attr.attr()`.
abbrev pub spec_text : List ℕ → List ℕ → List (List ℕ) → Bool → List ℕ
spec_text m part parts factory =
    m ++ b':' ∷ (join b'.' (part ∷ parts) ++ (if factory then codes "()" else []))

abbrev pub IsName : List ℕ → Type 0
IsName part = is_empty part ≡ false

-- The attributes, taken one after another.
module _ (py : Modules) where
  abbrev pub getattrs : py.Obj → List (List ℕ) → Option py.Obj
  getattrs current [] = some current
  getattrs current (part ∷ parts) = elim (py.getattr current part) [
    | none ↦ none
    | some next ↦ getattrs next parts
  ]

  walk-getattrs :
      (current : py.Obj) (parts : List (List ℕ))
      → All IsName parts
      → walk py current parts ≡ ok_or (getattrs current parts) raised
  unfolding walk
  walk-getattrs current [] h = refl
  walk-getattrs current (part ∷ parts) (e, hs) =
      rw e (go (py.getattr current part) (λ next. walk-getattrs next parts hs))
    where
      go :
          (o : Option py.Obj)
          → ((next : py.Obj) → walk py next parts ≡ ok_or (getattrs next parts) raised)
          → (ok_or o raised >>= (λ next. walk py next parts))
            ≡ ok_or (elim o [ none ↦ none | some next ↦ getattrs next parts ]) raised
      go none f = refl
      go (some next) f = f next

  -- The application that a module, its attributes and a call of the last one give.
  abbrev pub call_if : Bool → py.Obj → Option py.Obj
  call_if true app = py.call0 app
  call_if false app = some app

  abbrev pub resolve : List ℕ → List (List ℕ) → Bool → Option py.Obj
  resolve m parts factory = elim (py.import_module m) [
    | none ↦ none
    | some current ↦ elim (getattrs current parts) [ none ↦ none | some app ↦ call_if factory app ]
  ]

  called-call_if :
      (factory : Bool) (o : Option py.Obj)
      → (ok_or o raised >>= called py factory)
        ≡ ok_or (elim o [ none ↦ none | some app ↦ call_if factory app ]) raised
  called-call_if factory none = refl
  called-call_if true (some app) = refl
  called-call_if false (some app) = refl

  load-resolve :
      (m attr : List ℕ) (parts : List (List ℕ)) (factory : Bool)
      → IsName m
      → IsName attr
      → All IsName parts
      → is_some (strip_suffix (codes "()") attr) ≡ factory
      → split (λ c. c == b'.') (get_or (strip_suffix (codes "()") attr) attr) ≡ parts
      → load py m attr ≡ ok_or (resolve m parts factory) raised
  unfolding load
  load-resolve m attr parts factory hm ha hs hf hp = rw (hm, ha, hf, hp) (go (py.import_module m))
    where
      go :
          (o : Option py.Obj)
          → (ok_or o raised >>= (λ current. walk py current parts >>= called py factory))
            ≡ ok_or
                (elim o [
                  | none ↦ none
                  | some current ↦ elim (getattrs current parts) [
                    | none ↦ none
                    | some app ↦ call_if factory app
                  ]
                ])
                raised
      go none = refl
      go (some current) =
          rw (walk-getattrs current parts hs) (called-call_if factory (getattrs current parts))

  join-IsName :
      (part : List ℕ) (parts : List (List ℕ)) (s : List ℕ)
      → IsName part
      → IsName (join b'.' (part ∷ parts) ++ s)
  unfolding join
  join-IsName [] parts s h = absurd cc
  join-IsName (c ∷ part) [] s h = refl
  join-IsName (c ∷ part) (next ∷ parts) s h = refl

  -- What is read behind the colon.
  attr_text : List ℕ → List (List ℕ) → Bool → List ℕ
  attr_text part parts factory = join b'.' (part ∷ parts) ++ (if factory then codes "()" else [])

  load-attr_text :
      (m part : List ℕ) (parts : List (List ℕ)) (factory : Bool)
      → IsName m
      → All IsName (part ∷ parts)
      → all_without b'.' (part ∷ parts) ≡ true
      → strip_suffix (codes "()") (join b'.' (part ∷ parts)) ≡ none
      → load py m (attr_text part parts factory) ≡ ok_or (resolve m (part ∷ parts) factory) raised
  unfolding attr_text
  load-attr_text m part parts true hm hs hw hn =
      load-resolve m _ (part ∷ parts) true hm (join-IsName part parts (codes "()") hs.0) hs
        (rw (strip_suffix-append (codes "()") (join b'.' (part ∷ parts))) refl)
        (rw (strip_suffix-append (codes "()") (join b'.' (part ∷ parts)))
          (split-join b'.' part parts hw))
  load-attr_text m part parts false hm hs hw hn =
      load-resolve m _ (part ∷ parts) false hm (join-IsName part parts [] hs.0) hs
        (rw (append-nil (join b'.' (part ∷ parts)), hn) refl)
        (rw (append-nil (join b'.' (part ∷ parts)), hn) (split-join b'.' part parts hw))

  -- Where the working directory is known: a specifier that is written as a module, a colon, attributes
  -- with dots between, and perhaps `()` gives what importing the module, taking the attributes one
  -- after another and, with `()`, calling the last one give, an exception of Python in between being
  -- passed on; and the working directory is on the path. The module has no colon and no attribute has
  -- a dot, none of these names is empty, and the attributes' text does not itself end in `()`.
  pub import_app-spec_text :
      (dir : List ℕ) (path : List (List ℕ)) (m part : List ℕ) (parts : List (List ℕ))
      (factory : Bool)
      → py.getcwd ≡ some dir
      → IsName m
      → contains b':' m ≡ false
      → All IsName (part ∷ parts)
      → all_without b'.' (part ∷ parts) ≡ true
      → strip_suffix (codes "()") (join b'.' (part ∷ parts)) ≡ none
      → import_app py path (spec_text m part parts factory)
        ≡ (add_cwd dir path, ok_or (resolve m (part ∷ parts) factory) raised)
  unfolding import_app import_from attr_text load_parts
  import_app-spec_text dir path m part parts factory hd hm hc hs hw hn =
      ap (λ o. import_from py o path (spec_text m part parts factory)) hd
      ∙ ap (λ o. (add_cwd dir path, load_parts py o))
          (split_once-append m (attr_text part parts factory) hc)
      ∙ ap (λ r. (add_cwd dir path, r)) (load-attr_text m part parts factory hm hs hw hn)
