-- ===== src/Std/FilePath.antt =====
-- `Path::parent` for Unix paths: the components as the standard library takes them from the back.
pub mod Laws
use ps2hdd_rs.Prelude.{
  ℕ, Text, bytes, List, [], ◌∷◌, ◌++◌, Bool, true, false, ◌&&◌, ◌||◌, ◌==◌, if◌then◌else◌, Option,
  none, some,
}

-- `path[..]` between the slashes, in order. `""` is one empty component.
unfoldable pub split_slash : Text → List Text
split_slash [] = [] ∷ []
split_slash (c ∷ s) = elim (split_slash s) [
  | [] ↦ []
  | part ∷ parts ↦ if c == b'/' then [] ∷ part ∷ parts else (c ∷ part) ∷ parts
]

-- The parts with the slashes between them put back.
unfoldable pub join_slash : List Text → Text
join_slash [] = []
join_slash (part ∷ []) = part
join_slash (part ∷ next ∷ parts) = part ++ b'/' ∷ join_slash (next ∷ parts)

-- `parse_single_component` gives `None` for an empty part and for `.`.
abbrev is_trivial : Text → Bool
is_trivial [] = true
is_trivial (c ∷ []) = c == b'.'
is_trivial (c ∷ d ∷ s) = false

-- What `next_back` leaves of the parts when it takes the last component, and `trim_right` then:
-- `none` where every part is trivial.
unfoldable pub trim_right : List Text → List Text
trim_right [] = []
trim_right (part ∷ parts) = elim (trim_right parts) [
  | [] ↦ if is_trivial part then [] else part ∷ []
  | kept ∷ more ↦ part ∷ kept ∷ more
]

unfoldable pub drop_last : List Text → List Text
drop_last [] = []
drop_last (part ∷ []) = []
drop_last (part ∷ next ∷ parts) = part ∷ drop_last (next ∷ parts)

-- `as_path()` after `next_back()` took a component from the body, or what `none_left` says if the
-- body has none. `head` is what stands before the body.
parent_of_body : Text → Option Text → List Text → Option Text
parent_of_body head none_left [] = none_left
parent_of_body head none_left (part ∷ parts) =
    some (head ++ join_slash (trim_right (drop_last (part ∷ parts))))

abbrev begins_with_slash : Text → Bool
begins_with_slash [] = false
begins_with_slash (c ∷ s) = c == b'/'

abbrev is_empty : Text → Bool
is_empty [] = true
is_empty (c ∷ s) = false

-- `include_cur_dir`: a leading `.` is a component, and any other `.` is none.
abbrev leads_with_dot : ℕ → Text → Bool
leads_with_dot c s = c == b'.' && (is_empty s || begins_with_slash s)

-- The body follows a root slash, or a leading `.` component, if the path has one.
unfoldable pub parent : Text → Option Text
unfolding parent_of_body join_slash trim_right drop_last split_slash
parent [] = none
parent (c ∷ s) =
    if c == b'/'
    then parent_of_body (c ∷ []) none (trim_right (split_slash s))
    else if leads_with_dot c s
    then parent_of_body (c ∷ []) (some []) (trim_right (split_slash s))
    else parent_of_body [] none (trim_right (split_slash (c ∷ s)))
