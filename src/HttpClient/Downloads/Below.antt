-- ===== src/HttpClient/Downloads/Below.antt =====
-- Where `download_via_post` of redfish_sdk/http_client.py writes.
use redfish_python_sdk.Prelude.{
  ◌≡◌, refl, sym, ap, Bool, true, false, ◌||◌, some, List, [], ◌∷◌, ◌++◌, Text, str, text_eq,
  text_eq_iff, ends_with, join_with, ◌⊎◌, inl, inr, Bool-cases, if◌then◌else◌,
}
use mathlib.Core.Path.{subst}
use redfish_python_sdk.Exceptions.{validation_error, escapes_directory}
use redfish_python_sdk.Result.{ok, err, >>=-eq-ok}
use redfish_python_sdk.Exec.{Exec, Run, returned, raised, lift}
use redfish_python_sdk.Exec.Ends.{Ends, ends_returned, ends_raised, Ends-bind, Ends-lift}
use redfish_python_sdk.HttpClient.Defs.{Server, Response, HttpClient}
use redfish_python_sdk.HttpClient.Downloads.{
  Paths, path_parts, common_prefix, commonpath, inside_directory, join_path, Files, on_client,
  Downloaded, saved, fetch, file_name, target_path, download_via_post,
}

-- The path is the directory or lies below it: the directory is written as its parts, and the parts
-- of the path begin with them.
pub record IsBelow (directory path : Text) : Type 0 where
  pub parts : List Text
  pub rest : List Text
  pub is_directory : directory ≡ b'/' ∷ join_with b'/' parts
  pub is_path : path_parts path ≡ parts ++ rest

common_prefix_rest : (xs ys : List Text) → (rest : List Text) × (ys ≡ common_prefix xs ys ++ rest)
unfolding common_prefix
common_prefix_rest [] ys = (ys, refl)
common_prefix_rest (x ∷ xs) [] = ([], refl)
common_prefix_rest (x ∷ xs) (y ∷ ys) = elim (Bool-cases (text_eq x y)) [
  | inr f ↦ (y ∷ ys, rw f refl)
  | inl t ↦ let (rest, e) = common_prefix_rest xs ys in (rest, rw t (cc (e, (text_eq_iff x y).0 t)))
]

commonpath-IsBelow :
    (directory path : Text)
    → text_eq (commonpath directory path) directory ≡ true
    → IsBelow directory path
unfolding commonpath
commonpath-IsBelow directory path h =
    let (rest, e) = common_prefix_rest (path_parts directory) (path_parts path) in
    record {
      parts = common_prefix (path_parts directory) (path_parts path);
      rest = rest;
      is_directory = sym ((text_eq_iff (commonpath directory path) directory).0 h);
      is_path = e;
    }

inside_directory-IsBelow :
    (paths : Paths) (abs_path filename file : Text)
    → inside_directory paths abs_path filename ≡ ok file
    → IsBelow (paths.realpath abs_path) file
unfolding inside_directory
inside_directory-IsBelow paths abs_path filename file h =
    at_test (paths.realpath (join_path (paths.realpath abs_path) filename)) (Bool-cases _) h
  where
    at_test :
        (path : Text)
        → (text_eq (commonpath (paths.realpath abs_path) path) (paths.realpath abs_path) ≡ true)
          ⊎ (text_eq (commonpath (paths.realpath abs_path) path) (paths.realpath abs_path) ≡ false)
        → (if text_eq (commonpath (paths.realpath abs_path) path) (paths.realpath abs_path)
            then ok path
            else err (validation_error escapes_directory))
          ≡ ok file
        → IsBelow (paths.realpath abs_path) file
    at_test path (inl t) e =
        subst (IsBelow (paths.realpath abs_path)) {x = path} (cc (rw t at e))
          (commonpath-IsBelow (paths.realpath abs_path) path t)
    at_test path (inr f) e = absurd (cc (rw f at e))

-- Whether the output path names a directory.
abbrev pub is_directory_path : Paths → Text → Bool
is_directory_path paths output_path =
    paths.isdir (paths.abspath output_path) || ends_with output_path (str "/")

-- The one file that was written: at the path that was asked for, or below the directory.
pub record IsSaved (paths : Paths) (output_path : Text) (before after : Files) (r : Downloaded)
    : Type 0 where
  pub file : Text
  pub body : Text
  pub is_result : r ≡ saved file
  pub is_written : after.written ≡ (file, body) ∷ before.written
  pub is_place :
      ((is_directory_path paths output_path ≡ false) × (file ≡ paths.abspath output_path))
      ⊎ IsBelow (paths.realpath (paths.abspath output_path)) file

on_client-written :
    {A : Type 0} (call : Exec HttpClient A) (s : Files)
    → Ends (λ _ s'. s'.written ≡ s.written) (λ s'. s'.written ≡ s.written) (on_client call s)
on_client-written {A} call s = at_run (call s.client)
  where
    at_run :
        (r : Run HttpClient A)
        → Ends
            (λ _ s'. s'.written ≡ s.written)
            (λ s'. s'.written ≡ s.written)
            (elim r as (λ _. Run Files A) [
              | returned a c ↦ returned a (record s { client = c })
              | raised e c ↦ raised e (record s { client = c })
            ])
    at_run (returned a c) = ends_returned refl
    at_run (raised e c) = ends_raised refl

module _ (server : Server) (paths : Paths) (unquote : Text → Text) where
  target_path-place :
      (path output_path : Text) (response : Response) (file : Text)
      → target_path server paths unquote path output_path response ≡ ok file
      → ((is_directory_path paths output_path ≡ false) × (file ≡ paths.abspath output_path))
        ⊎ IsBelow (paths.realpath (paths.abspath output_path)) file
  unfolding target_path
  target_path-place path output_path response file h =
      elim (Bool-cases (is_directory_path paths output_path)) [
        | inr f ↦ inl (f, sym (cc (rw f at h)))
        | inl t ↦
            let (name, e, _) =
              >>=-eq-ok (λ filename. inside_directory paths (paths.abspath output_path) filename)
                (file_name server paths unquote path response) (rw t at h) in
            inr (inside_directory-IsBelow paths (paths.abspath output_path) name file e)
      ]

  -- `download_via_post` with an output path writes one file if it returns, and none if it raises.
  -- The file is the absolute output path where that names no directory; where it names one, the
  -- file lies in or below it, whatever name the server gives and however links are resolved.
  pub download_via_post-IsSaved :
      (path output_path : Text) (s : Files)
      → Ends
          (λ r s'. IsSaved paths output_path s s' r)
          (λ s'. s'.written ≡ s.written)
          (download_via_post server paths unquote path (some output_path) s)
  unfolding download_via_post
  download_via_post-IsSaved path output_path s =
      Ends-bind (on_client (fetch server paths unquote (str "POST") path true)) _ s
        (on_client-written (fetch server paths unquote (str "POST") path true) s)
        (λ response s' same.
          Ends-bind (lift (target_path server paths unquote path output_path response)) _ s'
            (Ends-lift
              {P = λ file s''.
                (target_path server paths unquote path output_path response ≡ ok file)
                × (s''.written ≡ s.written)}
              (target_path server paths unquote path output_path response) s' (λ file e. (e, same))
              same)
            (λ file s'' (e, same'). ends_returned (record {
              file = file;
              body = response.text;
              is_result = refl;
              is_written = ap (λ w. (file, response.text) ∷ w) same';
              is_place = target_path-place path output_path response file e;
            })))
