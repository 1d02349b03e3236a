-- ===== src/Storage/Paths.antt =====
-- filepath.Join and filepath.Clean on a system with slashes, and the trims of internal/storage/storage.go.
use harbor_shield.Prelude.{
  Bool, false, ◌||◌, List, [], ◌∷◌, ◌++◌, reverse, Text, codes, text_eq, trim_space, is_empty, ◌==◌,
  if◌then◌else◌,
}

-- strings.TrimLeft(s, "/")
unfoldable pub trim_slashes_left : Text → Text
trim_slashes_left [] = []
trim_slashes_left (c ∷ s) = if c == b'/' then trim_slashes_left s else c ∷ s

-- strings.TrimRight(s, "/")
unfoldable pub trim_slashes_right : Text → Text
unfolding trim_slashes_left
trim_slashes_right s = reverse (trim_slashes_left (reverse s))

-- How every method spells an endpoint.
unfoldable pub trim_endpoint : Text → Text
unfolding trim_slashes_right trim_space
trim_endpoint s = trim_slashes_right (trim_space s)

-- strings.Split(s, "/"): the first component is gathered in reverse.
unfoldable pub split_slashes : Text → Text → List Text
split_slashes part [] = reverse part ∷ []
split_slashes part (c ∷ s) =
    let next = split_slashes [] s in
    let longer = split_slashes (c ∷ part) s in if c == b'/' then reverse part ∷ next else longer

-- strings.Join(parts, "/")
unfoldable pub join_slashes : List Text → Text
join_slashes [] = []
join_slashes (part ∷ []) = part
join_slashes (part ∷ parts) = part ++ b'/' ∷ join_slashes parts

abbrev is_parent : Text → Bool
is_parent part = text_eq part (codes "..")

-- What `..` makes of the components before it, the last of them first.
abbrev go_up : Bool → List Text → List Text
go_up rooted [] = if rooted then [] else codes ".." ∷ []
go_up rooted (part ∷ stack) = if is_parent part then codes ".." ∷ part ∷ stack else stack

unfoldable pub clean_parts : Bool → List Text → List Text → List Text
unfolding text_eq
clean_parts rooted stack [] = reverse stack
clean_parts rooted stack (part ∷ parts) =
    clean_parts rooted
      (if is_empty part || text_eq part (codes ".")
        then stack
        else if is_parent part
        then go_up rooted stack
        else part ∷ stack)
      parts

abbrev is_rooted : Text → Bool
is_rooted [] = false
is_rooted (c ∷ s) = c == b'/'

abbrev or_dot : Text → Text
or_dot [] = codes "."
or_dot (c ∷ s) = c ∷ s

-- filepath.Clean
unfoldable pub clean : Text → Text
unfolding clean_parts split_slashes join_slashes
clean path =
    let rest = join_slashes (clean_parts (is_rooted path) [] (split_slashes [] path)) in
    if is_rooted path then b'/' ∷ rest else or_dot rest

-- filepath.Join
unfoldable pub join_path : List Text → Text
unfolding clean join_slashes
join_path [] = []
join_path (part ∷ parts) =
    if is_empty part then join_path parts else clean (join_slashes (part ∷ parts))
