-- ===== src/Patterns/Http/RoundTrip.antt =====
-- A response that is printed is read back.
use patience.Base.{
  suc, ◌+◌, ℤ, ◌≡◌, refl, ap, ◌∙◌, true, false, some, List, [], ◌∷◌, ◌++◌, map, Text, codes, All,
  arith, Without, index-append_some, take_first, drop_rest, trim_none, trim, trim_left, trim_right,
  is_space, is_empty, has_prefix, index, join, pieces, split-pieces, pieces-append, join-pieces,
  fields, fields_loop, atoi, drop, length, if◌then◌else◌, All-map, All-append, append-nil,
  append_assoc,
}
use patience.Patterns.Http.{Headers, HttpResponse}
use patience.Patterns.Http.Parsing.{
  Read, read, unread, put, with_header, header_loop, extract_headers, after_blank, extract_body,
  extract_status_code, second_field, code_of, with_code, parse_http_response, lines, newline,
  first_line, other_lines, no_status_line,
}

-- A header's name has neither white space nor a colon, and is not empty; its value is one line, without
-- white space at its ends.
pub record IsHeader (h : Text × Text) : Type 0 where
  pub named : is_empty h.0 ≡ false
  pub plain : All (λ c. is_space c ≡ false) h.0
  pub no_colon : Without 58 h.0
  pub one_line : Without 10 h.1
  pub trimmed : trim is_space h.1 ≡ h.1

abbrev pub header_line : Text × Text → Text
header_line h = h.0 ++ 58 ∷ 32 ∷ h.1

-- The header lines, a blank line and the body.
abbrev pub header_block : Headers → Text → Text
header_block [] body = 10 ∷ body
header_block (h ∷ hs) body = header_line h ++ 10 ∷ header_block hs body

-- A response on the wire, with the digits of its status code.
unfoldable pub printed : Text → Headers → Text → Text
printed digits headers body = (codes "HTTP/1.1 " ++ digits) ++ 10 ∷ header_block headers body

-- A map that is filled in this order.
abbrev pub put_all : Headers → Headers → Headers
put_all [] done = done
put_all (h ∷ hs) done = put_all hs (put h.0 h.1 done)

space_newline : (s : Text) → All (λ c. is_space c ≡ false) s → Without 10 s
unfolding is_space
space_newline s h = All-map (λ c k. ground (arith, k)) s h

header_line-Without : (h : Text × Text) → IsHeader h → Without 10 (header_line h)
header_line-Without h v =
    All-append _ h.0 (58 ∷ 32 ∷ h.1) (space_newline h.0 v.plain)
      (ground arith, (ground arith, v.one_line))

pieces-header_block :
    (hs : Headers) (body : Text)
    → All IsHeader hs
    → pieces 10 (header_block hs body) ≡ map header_line hs ++ [] ∷ pieces 10 body
unfolding pieces
pieces-header_block [] body v = refl
pieces-header_block (h ∷ hs) body v =
    pieces-append 10 (header_line h) (header_block hs body) (header_line-Without h v.0)
    ∙ ap (λ ls. header_line h ∷ ls) (pieces-header_block hs body v.1)

filled :
    (s rest : Text)
    → is_empty s ≡ false
    → All (λ c. is_space c ≡ false) s
    → is_empty (trim is_space (s ++ rest)) ≡ false
unfolding trim trim_left trim_right is_empty
filled [] rest h k = absurd (ground (arith, h))
filled (c ∷ s) rest h k = ground (arith, k.0)

-- The space after the colon goes.
trim_space : (s : Text) → trim is_space (32 ∷ s) ≡ trim is_space s
unfolding trim trim_left is_space
trim_space s = refl

with_header-line :
    (h : Text × Text) (done : Headers)
    → IsHeader h
    → with_header (header_line h) (index (header_line h) (codes ":")) done ≡ put h.0 h.1 done
unfolding index has_prefix
with_header-line h done v =
    let line = header_line h in
    let colon = index-append_some 58 [] h.0 (58 ∷ 32 ∷ h.1) 0 v.no_colon (ground arith) in
    let one_more : suc (length h.0 + 0) ≡ length h.0 + 0 + 1 = omega arith in
    let name = take_first h.0 (58 ∷ 32 ∷ h.1) in
    let value = ap (λ k. drop k line) one_more ∙ drop_rest 1 h.0 (58 ∷ 32 ∷ h.1) in
    ap (λ o. with_header line o done) colon
    ∙ ap (λ t. put (trim is_space t) (trim is_space (drop (suc (length h.0 + 0)) line)) done) name
    ∙ ap (λ t. put (trim is_space h.0) (trim is_space t) done) value
    ∙ ap (λ t. put t (trim is_space (32 ∷ h.1)) done) (trim_none is_space h.0 v.plain)
    ∙ ap (λ t. put h.0 t done) (trim_space h.1 ∙ v.trimmed)

header_loop-lines :
    (hs done : Headers) (rest : List Text)
    → All IsHeader hs
    → header_loop (map header_line hs ++ [] ∷ rest) done ≡ put_all hs done
unfolding header_loop trim trim_left trim_right is_empty
header_loop-lines [] done rest v = refl
header_loop-lines (h ∷ hs) done rest v = rw (filled h.0 (58 ∷ 32 ∷ h.1) v.0.named v.0.plain) (
    ap (λ d. header_loop (map header_line hs ++ [] ∷ rest) d) (with_header-line h done v.0)
    ∙ header_loop-lines hs (put h.0 h.1 done) rest v.1)

after_blank-lines :
    (hs : Headers) (rest : List Text)
    → All IsHeader hs
    → after_blank (map header_line hs ++ [] ∷ rest) ≡ rest
unfolding after_blank trim trim_left trim_right is_empty
after_blank-lines [] rest v = refl
after_blank-lines (h ∷ hs) rest v =
    rw (filled h.0 (58 ∷ 32 ∷ h.1) v.0.named v.0.plain) (after_blank-lines hs rest v.1)

fields_loop_word :
    (word s : Text)
    → All (λ c. is_space c ≡ false) s
    → is_empty (word ++ s) ≡ false
    → fields_loop word s ≡ (word ++ s) ∷ []
unfolding fields_loop is_empty
fields_loop_word word [] h k = ground (arith, k, append-nil word)
fields_loop_word word (c ∷ s) h k =
    let regroup = append_assoc word (c ∷ []) s in
    rw h.0
      (fields_loop_word (word ++ c ∷ []) s h.1 (ap is_empty regroup ∙ k) ∙ ap (λ w. w ∷ []) regroup)

status_fields :
    (digits : Text)
    → All (λ c. is_space c ≡ false) digits
    → is_empty digits ≡ false
    → fields (codes "HTTP/1.1 " ++ digits) ≡ codes "HTTP/1.1" ∷ digits ∷ []
unfolding fields fields_loop is_space is_empty
status_fields digits h k = ap (λ ws. codes "HTTP/1.1" ∷ ws) (fields_loop_word [] digits h k)

digits-is_empty : (digits : Text) (code : ℤ) → atoi digits ≡ some code → is_empty digits ≡ false
unfolding atoi is_empty
digits-is_empty [] code h = absurd (ground (arith, h))
digits-is_empty (c ∷ s) code h = refl

abbrev status_line : Text → Text
status_line digits = codes "HTTP/1.1 " ++ digits

module _ (digits body : Text) (hs : Headers) (plain : All (λ c. is_space c ≡ false) digits)
    (v : All IsHeader hs) where
  lines-printed :
      lines (printed digits hs body)
      ≡ status_line digits ∷ (map header_line hs ++ [] ∷ pieces 10 body)
  unfolding printed
  lines-printed =
      let one_line : Without 10 (status_line digits) =
        All-append _ (codes "HTTP/1.1 ") digits (ground arith) (space_newline digits plain) in
      split-pieces 10 (status_line digits ++ 10 ∷ header_block hs body)
      ∙ pieces-append 10 (status_line digits) (header_block hs body) one_line
      ∙ ap (λ ls. status_line digits ∷ ls) (pieces-header_block hs body v)

  extract_headers-printed : extract_headers (printed digits hs body) ≡ put_all hs []
  unfolding extract_headers
  extract_headers-printed =
      ap (λ ls. header_loop (other_lines ls) []) lines-printed
      ∙ header_loop-lines hs [] (pieces 10 body) v

  extract_body-printed : extract_body (printed digits hs body) ≡ trim is_space body
  unfolding extract_body
  extract_body-printed =
      ap (λ ls. trim is_space (join newline (after_blank (other_lines ls)))) lines-printed
      ∙ ap (λ ls. trim is_space (join newline ls)) (after_blank-lines hs (pieces 10 body) v)
      ∙ ap (trim is_space) (join-pieces 10 body)

  extract_status_code-printed :
      (code : ℤ)
      → atoi digits ≡ some code
      → extract_status_code (printed digits hs body) ≡ read code
  unfolding extract_status_code
  extract_status_code-printed code number =
      ap (λ ls. second_field (fields (first_line ls))) lines-printed
      ∙ ap second_field (status_fields digits plain (digits-is_empty digits code number))
      ∙ ap code_of number

  starts-printed : has_prefix (first_line (lines (printed digits hs body))) (codes "HTTP/") ≡ true
  unfolding has_prefix
  starts-printed = ap (λ ls. has_prefix (first_line ls) (codes "HTTP/")) lines-printed

-- Reading a printed response gives its status code, its headers (a later one of the same name taking
-- the place of an earlier one) and its body, if the digits are those of the code, each header is one, and
-- the body has no white space at its ends.
pub parse_http_response-printed :
    (digits body : Text) (hs : Headers) (code : ℤ)
    → All (λ c. is_space c ≡ false) digits
    → atoi digits ≡ some code
    → All IsHeader hs
    → trim is_space body ≡ body
    → parse_http_response (printed digits hs body)
      ≡ read record { status_code = code; headers = some (put_all hs []); body = body; url = [] }
unfolding parse_http_response printed is_empty
parse_http_response-printed digits body hs code plain number v trimmed =
    let raw = printed digits hs body in
    let response : Headers → Text → Read HttpResponse =
      λ h b. read record { status_code = code; headers = some h; body = b; url = [] } in
    ap (λ b. if b then with_code raw (extract_status_code raw) else unread no_status_line)
      (starts-printed digits body hs plain v)
    ∙ ap (λ c. with_code raw c) (extract_status_code-printed digits body hs plain v code number)
    ∙ ap (λ h. response h (extract_body raw)) (extract_headers-printed digits body hs plain v)
    ∙ ap (λ b. response (put_all hs []) b) (extract_body-printed digits body hs plain v ∙ trimmed)
