-- ===== src/Patterns/Http/Parsing.antt =====
-- Reading a raw HTTP response (pkg/patterns/http_pattern_matcher.go).
use patience.Base.{
  ℤ, Option, none, some, List, [], ◌∷◌, Text, codes, is_empty, same_text, has_prefix, index, split,
  join, fields, is_space, trim, atoi, take, drop, suc, if◌then◌else◌, ℕ,
}
use patience.Patterns.Http.{Headers, HttpResponse}

pub data ReadError : Type 0 where
  empty_response no_status_line invalid_status_line invalid_status_code : ReadError

abbrev pub newline : Text
newline = codes "\n"

abbrev pub lines : Text → List Text
lines raw = split raw newline

abbrev pub first_line : List Text → Text
first_line [] = []
first_line (l ∷ ls) = l

abbrev pub other_lines : List Text → List Text
other_lines [] = []
other_lines (l ∷ ls) = ls

pub data Read (A : Type 0) : Type 0 where
  read : A → Read A
  unread : ReadError → Read A

abbrev pub code_of : Option ℤ → Read ℤ
code_of none = unread invalid_status_code
code_of (some code) = read code

abbrev pub second_field : List Text → Read ℤ
second_field (a ∷ b ∷ cs) = code_of (atoi b)
second_field _ = unread invalid_status_line

unfoldable pub extract_status_code : Text → Read ℤ
extract_status_code raw = second_field (fields (first_line (lines raw)))

-- headers[key] = value
unfoldable pub put : Text → Text → Headers → Headers
put key value [] = (key, value) ∷ []
put key value (e ∷ es) =
    let rest = put key value es in if same_text e.0 key then (key, value) ∷ es else e ∷ rest

-- strings.SplitN(line, ":", 2) has two parts exactly if there is a colon.
abbrev pub with_header : Text → Option ℕ → Headers → Headers
with_header line none headers = headers
with_header line (some i) headers =
    put (trim is_space (take i line)) (trim is_space (drop (suc i) line)) headers

unfoldable pub header_loop : List Text → Headers → Headers
header_loop [] headers = headers
header_loop (line ∷ rest) headers =
    let more = header_loop rest (with_header line (index line (codes ":")) headers) in
    if is_empty (trim is_space line) then headers else more

unfoldable pub extract_headers : Text → Headers
extract_headers raw = header_loop (other_lines (lines raw)) []

-- The lines after the first blank one.
unfoldable pub after_blank : List Text → List Text
after_blank [] = []
after_blank (line ∷ rest) =
    let more = after_blank rest in if is_empty (trim is_space line) then rest else more

unfoldable pub extract_body : Text → Text
extract_body raw = trim is_space (join newline (after_blank (other_lines (lines raw))))

abbrev pub with_code : Text → Read ℤ → Read HttpResponse
with_code raw (unread e) = unread e
with_code raw (read code) = read record {
  status_code = code;
  headers = some (extract_headers raw);
  body = extract_body raw;
  url = [];
}

unfoldable pub parse_http_response : Text → Read HttpResponse
parse_http_response raw =
    if is_empty raw
    then unread empty_response
    else if has_prefix (first_line (lines raw)) (codes "HTTP/")
    then with_code raw (extract_status_code raw)
    else unread no_status_line
