-- ===== src/Execution/Paths.antt =====
-- internal/execution/executor.go: the working directory that a request freezes.
use request_sudo.Base.{
  ◌≡◌, refl, Bool, true, false, not, List, [], ◌∷◌, ◌++◌, Text, codes, is_empty, if◌then◌else◌,
}
use request_sudo.Base.Trim.{trim_space}
use request_sudo.Execution.{is_abs, split_path, clean_parts, rooted, clean_abs, normalize_cwd}

rooted-is_abs :
    (before : List Text) (path : Text) → is_abs path ≡ true → is_abs (rooted before path) ≡ true
unfolding rooted
rooted-is_abs [] path h = h
rooted-is_abs (part ∷ before) path h = rooted-is_abs before (codes "/" ++ (part ++ path)) refl

clean_abs-is_abs : (path : Text) → is_abs (clean_abs path) ≡ true
unfolding clean_abs rooted
clean_abs-is_abs path = go (clean_parts (split_path path) [])
  where
    go : (parts : List Text) → is_abs (if is_empty parts then codes "/" else rooted parts []) ≡ true
    go [] = refl
    go (part ∷ before) = rooted-is_abs before (codes "/" ++ (part ++ [])) refl

-- Whatever directory a requester names, the one that is frozen is an absolute path.
pub normalize_cwd-is_abs : (cwd : Text) → is_abs (normalize_cwd cwd) ≡ true
unfolding normalize_cwd
normalize_cwd-is_abs cwd =
    by_tests (is_empty cwd) (not (is_abs cwd)) (is_empty (trim_space (clean_abs cwd)))
  where
    by_tests :
        (a b c : Bool)
        → is_abs (
            if a
            then codes "/"
            else if b
            then codes "/"
            else if c
            then codes "/"
            else clean_abs cwd)
          ≡ true
    by_tests true b c = refl
    by_tests false true c = refl
    by_tests false false true = refl
    by_tests false false false = clean_abs-is_abs cwd
