-- ===== src/Server/App/Files.antt =====
-- kuard/pkg/app/app.go: the browser of the file system, with what it uses of Go's packages path and
-- strings. The file system is a parameter.
pub mod Paths
pub mod Links
mod Tests
use kubernetes_up_running.Base.{
  is_empty, Option, some, none, Bool, true, false, ◌||◌, List, [], ◌∷◌, ◌++◌, map, ◌==◌,
  if◌then◌else◌,
}
use kubernetes_up_running.Js.Text.{Text, text_eq, codes}
use kubernetes_up_running.Server.App.Static.{trim_slash, strip_prefix}

-- The segments of a path, between its slashes: the first and the others.
unfoldable pub split : Text → Text × List Text
split [] = ([], [])
split (c ∷ s) =
    let (first, others) = split s in if c == b'/' then ([], first ∷ others) else (c ∷ first, others)

abbrev pub segments : Text → List Text
segments s = let (first, others) = split s in first ∷ others

-- A segment on the segments before it, the last of them first.
abbrev up : (rooted : Bool) → List Text → List Text
up true [] = []
up false [] = codes ".." ∷ []
up rooted (last ∷ before) = if text_eq last (codes "..") then codes ".." ∷ last ∷ before else before

unfoldable pub step : (rooted : Bool) → List Text → Text → List Text
step rooted before segment =
    if is_empty segment || text_eq segment (codes ".")
    then before
    else if text_eq segment (codes "..")
    then up rooted before
    else segment ∷ before

unfoldable pub resolve : (rooted : Bool) → List Text → List Text → List Text
unfolding step
resolve rooted before [] = before
resolve rooted before (segment ∷ others) = resolve rooted (step rooted before segment) others

abbrev pub unwind : List Text → List Text → List Text
unwind [] after = after
unwind (segment ∷ before) after = unwind before (segment ∷ after)

-- Each segment after a slash.
abbrev pub slashed : List Text → Text
slashed [] = []
slashed (segment ∷ others) = codes "/" ++ (segment ++ slashed others)

abbrev pub root_or : Text → Text
root_or [] = codes "/"
root_or (c ∷ path) = c ∷ path

abbrev dot_or : Text → Text
dot_or [] = codes "."
dot_or (c ∷ path) = path

-- `path.Clean`, which is `filepath.Clean` on the systems that the server is built for.
unfoldable pub clean : Text → Text
unfolding split resolve
clean [] = codes "."
clean (c ∷ path) =
    if c == b'/'
    then root_or (slashed (unwind (resolve true [] (segments path)) []))
    else dot_or (slashed (unwind (resolve false [] (segments (c ∷ path))) []))

abbrev append_element : Text → Text → Text
append_element [] element = element
append_element (c ∷ path) element = (c ∷ path) ++ (codes "/" ++ element)

abbrev joined : Text → List Text → Text
joined path [] = path
joined path (element ∷ others) = joined (append_element path element) others

abbrev clean_or_empty : Text → Text
clean_or_empty [] = []
clean_or_empty (c ∷ path) = clean (c ∷ path)

-- `path.Join`
unfoldable pub path_join : List Text → Text
unfolding clean
path_join elements = clean_or_empty (joined [] elements)

pub record Entry : Type 0 where
  pub name : Text
  pub is_dir : Bool

-- What is at a path: `os.Stat` fails, a file, a directory that cannot be read, or one with its entries.
pub data Node : Type 0 where
  missing file unreadable : Node
  directory : List Entry → Node

-- The reply: status 404, the file at a path, status 500, or a page with a title and its links, each with
-- its address and its text.
pub data Reply : Type 0 where
  not_found failed : Reply
  contents : Text → Reply
  page : (title : Text) → List (Text × Text) → Reply

unfoldable pub base_path : Text → Text
unfolding path_join
base_path prefix =
    let joined_path = path_join (prefix ∷ codes "fs" ∷ []) in
    elim (strip_prefix (codes "/") joined_path) [
      | some rest ↦ joined_path
      | none ↦ codes "/" ++ joined_path
    ]

-- `rel`: the path without its slash, and without the base path at its start.
unfoldable pub relative : (base url_path : Text) → Text
unfolding trim_slash
relative base url_path =
    let rel = trim_slash url_path in
    elim (strip_prefix (trim_slash base) rel) [ none ↦ rel | some rest ↦ trim_slash rest ]

abbrev pub slash_if : Bool → Text
slash_if is_dir = if is_dir then codes "/" else []

unfoldable pub href : (base rel : Text) → Entry → Text
href base rel e =
    let path =
      if is_empty rel
      then path_join (base ∷ e.name ∷ [])
      else path_join (base ∷ rel ∷ e.name ∷ []) in
    path ++ slash_if e.is_dir

unfoldable pub link : (base rel : Text) → Entry → Text × Text
unfolding href
link base rel e = (href base rel e, e.name ++ slash_if e.is_dir)

abbrev shown : (prefix url_path path : Text) → Node → Reply
shown prefix url_path path missing = not_found
shown prefix url_path path file = contents path
shown prefix url_path path unreadable = failed
shown prefix url_path path (directory entries) =
    let base = base_path prefix in
    let rel = relative base url_path in
    page (path_join (base ∷ rel ∷ [])) (map (link base rel) entries)

-- The handler, at the path that `http.StripPrefix` leaves.
unfoldable pub browse : (stat : Text → Node) → (prefix url_path : Text) → Reply
unfolding base_path relative link clean
browse stat prefix url_path =
    let path = clean (codes "/" ++ url_path) in shown prefix url_path path (stat path)
