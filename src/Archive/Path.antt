-- ===== src/Archive/Path.antt =====
-- The paths that IsSafeZipPath of sc/cari.cpp lets through, and the files of a tree.
use bacnet_profile_example_b.Base.{
  ℕ, ◌≡◌, ◌≢◌, refl, sym, ap, ◌∙◌, subst, Bool, true, false, ◌||◌, List, [], ◌∷◌, ◌++◌, Option,
  none, some, if◌then◌else◌, arith, not,
}
use bacnet_profile_example_b.Base.Text.{codes, same_text, same_text_self, starts_with}
use bacnet_profile_example_b.Base.TextMap.{EachValue, insert-EachValue}
use bacnet_profile_example_b.Archive.{
  Tree, split, safe_parts, is_safe_zip_path, contains, add_parts, joined, add_folder, add_file,
  parent, with_parent,
}

add_parts-files :
    (partial : List ℕ) (parts : List (List ℕ)) (tree : Tree)
    → (add_parts partial parts tree).files ≡ tree.files
unfolding add_parts
add_parts-files partial [] tree = refl
add_parts-files partial (part ∷ parts) tree =
    add_parts-files (partial ++ joined partial part) parts _

with_parent-files :
    (above : Option (List ℕ)) (tree : Tree) → (with_parent above tree).files ≡ tree.files
unfolding add_folder
with_parent-files none tree = refl
with_parent-files (some folder) tree = add_parts-files [] (split folder) tree

-- A part of a path that names an entry of the folder it stands in.
abbrev pub IsOrdinary : List ℕ → Type 0
IsOrdinary part = (part ≢ []) × (part ≢ codes ".") × (part ≢ codes "..")

abbrev pub AllOrdinary : List (List ℕ) → Type 0
AllOrdinary [] = Unit {0}
AllOrdinary (part ∷ parts) = IsOrdinary part × AllOrdinary parts

-- A relative path that never leaves the folder it starts from.
abbrev pub IsContained : List ℕ → Type 0
IsContained path = (starts_with (codes "/") path ≡ false) × AllOrdinary (split path)

abbrev pub AllContained : Tree → Type 0
AllContained tree = EachValue (λ path octets. IsContained path) tree.files

differs : (xs ys : List ℕ) → same_text xs ys ≡ false → xs ≢ ys
differs xs ys e same =
    let self = ap (λ t. same_text xs t) (sym same) ∙ same_text_self xs in
    absurd (ground (arith, sym e ∙ self))

neither : (a b : Bool) → (a || b) ≡ false → (a ≡ false) × (b ≡ false)
neither false false e = (refl, refl)
neither true b e = absurd (ground (arith, e))
neither false true e = absurd (ground (arith, e))

pub accepted : (b : Bool) → not b ≡ false → b ≡ true
accepted true e = refl
accepted false e = absurd (ground (arith, e))

else_of : (b rest : Bool) → (if b then false else rest) ≡ true → (b ≡ false) × (rest ≡ true)
else_of true rest e = absurd (ground (arith, e))
else_of false rest e = (refl, e)

safe_parts-AllOrdinary : (parts : List (List ℕ)) → safe_parts parts ≡ true → AllOrdinary parts
unfolding safe_parts
safe_parts-AllOrdinary [] e = tt
safe_parts-AllOrdinary (part ∷ parts) e =
    let (test, inner) = else_of _ _ e in
    let (control, rest) = else_of _ _ inner in
    let (either, dots) = neither _ _ test in
    let (empty, dot) = neither _ _ either in
    (
      (differs part [] empty, differs part _ dot, differs part _ dots),
      safe_parts-AllOrdinary parts rest,
    )

pub safe_path-IsContained : (path : List ℕ) → is_safe_zip_path path ≡ true → IsContained path
unfolding is_safe_zip_path
safe_path-IsContained path e =
    let (test, inner) = else_of _ _ e in
    let (three, colon) = neither _ (contains b':' path) test in
    let (two, backslash) = neither _ (contains 92 path) three in
    let (empty, slash) = neither (same_text path []) _ two in
    (slash, safe_parts-AllOrdinary (split path) inner)

pub add_file-AllContained :
    (path octets : List ℕ) (tree : Tree)
    → IsContained path
    → AllContained tree
    → AllContained (add_file path octets tree)
unfolding add_file
add_file-AllContained path octets tree new h =
    insert-EachValue (λ p o. IsContained p) path octets _ new
      (subst (EachValue (λ p o. IsContained p)) (sym (with_parent-files (parent path) tree)) h)

pub add_folder-AllContained :
    (path : List ℕ) (tree : Tree) → AllContained tree → AllContained (add_folder path tree)
unfolding add_folder
add_folder-AllContained path tree h =
    subst (EachValue (λ p o. IsContained p)) (sym (add_parts-files [] (split path) tree)) h
