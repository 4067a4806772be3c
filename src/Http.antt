-- ===== src/Http.antt =====
-- core/husarnet/http.h and http.cpp: the HTTP messages of the WebSocket's handshake. The conversions of
-- text to numbers are those of the template library and are arguments. An iterator is the offset from
-- the buffer's start; using one that the vector has invalidated is undefined, which is `none`.
use husarnet.Common.{
  ℕ, zero, suc, ◌+◌, ◌-◌, Bool, true, false, not, ◌||◌, Option, none, some, List, [], ◌∷◌, ◌++◌,
  Bytes, ◌==◌, ltb, leb, if◌then◌else◌, length, take, drop, substr, same_bytes, ◌>>=◌,
}
use husarnet.IpAddress.{bytes_lt}
use husarnet.Util.Text.{starts_with}
use husarnet.Util.Decimal.{to_string}

pub data Result : Type 0 where
  ok : Result
  incomplete : Result
  invalid : Result

pub data Kind : Type 0 where
  unknown : Kind
  request : Kind
  response : Kind

pub data ParseState : Type 0 where
  start_line : ParseState
  header : ParseState
  body : ParseState

pub record HttpMessage : Type 0 where
  pub status_code : ℕ
  pub method : Bytes
  pub endpoint : Bytes
  pub kind : Kind
  pub headers : List (Bytes × Bytes)
  pub content : Bytes
  pub buffer : Bytes
  -- `_it`, and whether it points into the buffer.
  pub offset : ℕ
  pub usable : Bool
  pub parser_state : ParseState

-- `MAX_MESSAGE_LENGTH`, and the room that is reserved.
abbrev pub max_message_length : ℕ
max_message_length = 8192

abbrev pub reserved_length : ℕ
reserved_length = 2048

-- `HTTPMessage()`
abbrev pub new_http_message : HttpMessage
new_http_message = record {
  status_code = 0;
  method = [];
  endpoint = [];
  kind = unknown;
  headers = [];
  content = [];
  buffer = [];
  offset = 0;
  usable = true;
  parser_state = start_line;
}

abbrev pub end_of_line : Bytes
end_of_line = 13 ∷ 10 ∷ []

abbrev pub body_delimiter : Bytes
body_delimiter = 13 ∷ 10 ∷ 13 ∷ 10 ∷ []

abbrev pub http_version : Bytes
http_version = b'H' ∷ b'T' ∷ b'T' ∷ b'P' ∷ b'/' ∷ b'1' ∷ b'.' ∷ b'1' ∷ []

-- `find` of a text, and where it stands.
unfoldable pub find_text : Bytes → Bytes → Option ℕ
find_text text [] = if length text == 0 then some 0 else none
find_text text (c ∷ rest) =
    let later = find_text text rest in
    if starts_with (c ∷ rest) text
    then some 0
    else elim later [ none ↦ none | some i ↦ some (i + 1) ]

-- `find` from a position on.
unfoldable pub find_from : Bytes → Bytes → ℕ → Option ℕ
find_from text s start = find_text text (drop start s) >>= λ i. some (start + i)

abbrev is_empty : Bytes → Bool
is_empty s = length s == 0

-- `insert_or_assign` of a map, which is sorted by the keys.
unfoldable pub assign_header : List (Bytes × Bytes) → Bytes → Bytes → List (Bytes × Bytes)
assign_header [] key value = (key, value) ∷ []
assign_header ((k, v) ∷ rest) key value =
    let more = assign_header rest key value in
    if same_bytes k key
    then (key, value) ∷ rest
    else if bytes_lt key k
    then (key, value) ∷ (k, v) ∷ rest
    else (k, v) ∷ more

-- `find` of a key.
unfoldable pub header_of : List (Bytes × Bytes) → Bytes → Option Bytes
header_of [] key = none
header_of ((k, v) ∷ rest) key =
    let more = header_of rest key in if same_bytes k key then some v else more

abbrev content_length : Bytes
content_length =
    b'C' ∷ b'o' ∷ b'n' ∷ b't' ∷ b'e' ∷ b'n' ∷ b't' ∷ b'-' ∷ b'L' ∷ b'e' ∷ b'n' ∷ b'g' ∷ b't' ∷ b'h'
    ∷ []

-- The header lines, each `key: value`.
unfoldable pub encode_headers : List (Bytes × Bytes) → Bytes
encode_headers [] = []
encode_headers ((key, value) ∷ rest) =
    key ++ (b':' ∷ 32 ∷ (value ++ (end_of_line ++ encode_headers rest)))

-- The message, whose headers may have grown, and its bytes.
unfoldable pub message_bytes : HttpMessage → HttpMessage × Bytes
unfolding encode_headers
message_bytes m =
    let sized = record m {
      headers = assign_header m.headers content_length (to_string (length m.content));
    } in
    let done = if is_empty m.content then m else sized in
    (
      done,
      m.method
          ++ (32
              ∷ (m.endpoint
                  ++ (32
                      ∷ (http_version
                          ++ (end_of_line
                              ++ (encode_headers done.headers ++ (end_of_line ++ m.content))))))),
    )

-- `encode` to a buffer that holds `capacity` bytes; `none` is etl's error of a vector that is full.
unfoldable pub encode : ℕ → HttpMessage → Option (HttpMessage × Bytes)
unfolding message_bytes
encode capacity m =
    if ltb capacity (length (message_bytes m).1) then none else some (message_bytes m)

-- The three fields of a start line that ends at `end`. A second space behind the end makes the third
-- field reach to the end of the buffer, since `substr` cuts a size that is too large.
unfoldable pub start_fields : Bytes → ℕ → Option (Bytes × (Bytes × Bytes))
start_fields view end = find_text (32 ∷ []) view >>= λ space1.
    find_from (32 ∷ []) view (space1 + 1) >>= λ space2. some (
      take space1 view,
      (
        substr (space1 + 1) (space2 - space1 - 1) view,
        if leb (space2 + 1) end
            then substr (space2 + 1) (end - space2 - 1) view
            else drop (space2 + 1) view,
      ),
    )

-- The steps of the parser take the conversions `etl::to_arithmetic` to `unsigned int` and to `size_t`.
module _ (to_unsigned : Bytes → Option ℕ) (to_size : Bytes → ℕ) where
  -- `_parseStartLine` behind the checks for empty fields. The method holds 7 bytes, the endpoint 256.
  unfoldable pub take_fields : Bytes → Bytes → Bytes → HttpMessage → Result × HttpMessage
  take_fields field1 field2 field3 m =
      let answer = record m { kind = response } in
      let asked = record m { kind = request; method = take 7 field1; endpoint = take 256 field2 } in
      if same_bytes field1 http_version
      then elim (to_unsigned field2) [
        | none ↦ (invalid, answer)
        | some code ↦ (ok, record answer { status_code = code })
      ]
      else if same_bytes field3 http_version
      then if ltb 7 (length field1) || ltb 256 (length field2)
        then (invalid, asked)
        else (ok, asked)
      else (invalid, m)

  unfoldable pub parse_start_line : HttpMessage → Result × HttpMessage
  unfolding take_fields
  parse_start_line m =
      let view = drop m.offset m.buffer in
      elim (find_text end_of_line view) [
        | none ↦ (incomplete, m)
        | some end ↦ elim (start_fields view end) [
          | none ↦ (invalid, m)
          | some fields ↦
              let taken = take_fields fields.0 fields.1.0 fields.1.1 m in
              if is_empty fields.0 || is_empty fields.1.0 || is_empty fields.1.1
              then (invalid, m)
              else elim taken.0 [
                | ok ↦ (ok, record taken.1 { offset = m.offset + (end + 2) })
                | _ ↦ taken
              ]
        ]
      ]

  -- The loop over the lines; the fuel is the size of the header section.
  unfoldable pub parse_lines :
      ℕ → Bytes → ℕ → ℕ → List (Bytes × Bytes) → Result × List (Bytes × Bytes)
  parse_lines zero view sep pos headers = (ok, headers)
  parse_lines (suc fuel) view sep pos headers =
      if leb sep pos then (ok, headers) else elim (find_from end_of_line view pos) [
        | none ↦ (invalid, headers)
        | some end ↦
            let line = substr pos (end - pos) view in
            if is_empty line then (ok, headers) else elim (find_text (b':' ∷ []) line) [
              | none ↦ (invalid, headers)
              | some colon ↦
                  parse_lines fuel view sep (end + 2)
                    (assign_header headers (take colon line) (drop (colon + 2) line))
            ]
      ]

  unfoldable pub parse_header : HttpMessage → Result × HttpMessage
  unfolding parse_lines
  parse_header m =
      let view = drop m.offset m.buffer in
      elim (find_text body_delimiter view) [
        | none ↦ (incomplete, m)
        | some sep ↦
            let lines = parse_lines sep view sep 0 m.headers in
            let read = record m { headers = lines.1 } in
            elim lines.0 [
              | ok ↦ (ok, record read { offset = m.offset + (sep + 4); parser_state = body })
              | _ ↦ (lines.0, read)
            ]
      ]

  unfoldable pub parse_body : HttpMessage → Result × HttpMessage
  parse_body m =
      let view = drop m.offset m.buffer in
      elim (header_of m.headers content_length) [
        | none ↦ (ok, m)
        | some value ↦
            if ltb (length view) (to_size value)
            then (incomplete, m)
            else (ok, record m { content = take (to_size value) view })
      ]

  -- The loop of `parse` from each state on; a step that is not `ok` ends it.
  unfoldable pub from_body : HttpMessage → Result × HttpMessage
  unfolding parse_body
  from_body m = parse_body m

  unfoldable pub from_header : HttpMessage → Result × HttpMessage
  unfolding parse_header from_body
  from_header m = elim (parse_header m).0 [ ok ↦ from_body (parse_header m).1 | _ ↦ parse_header m ]

  unfoldable pub from_start_line : HttpMessage → Result × HttpMessage
  unfolding parse_start_line from_header
  from_start_line m =
      let fresh = record m { buffer = drop m.offset m.buffer; offset = 0 } in
      let line = parse_start_line fresh in
      elim line.0 [ ok ↦ from_header (record line.1 { parser_state = header }) | _ ↦ line ]

  -- What `parse` does to its state after the loop.
  unfoldable pub finish : Result × HttpMessage → Result × HttpMessage
  finish (ok, m) = (ok, record m { parser_state = start_line })
  finish (incomplete, m) = (incomplete, m)
  finish (invalid, m) = (invalid, record m { parser_state = start_line; buffer = []; offset = 0 })

  unfoldable pub parse : Bytes → HttpMessage → Option (Result × HttpMessage)
  unfolding from_start_line from_header from_body finish
  parse chunk m =
      let grown = record m { buffer = m.buffer ++ chunk } in
      if ltb max_message_length (length m.buffer + length chunk)
      then some (invalid, record m { buffer = []; usable = false })
      else if not m.usable || ltb reserved_length (length m.buffer + length chunk)
      then none
      else elim m.parser_state [
        | start_line ↦ some (finish (from_start_line grown))
        | header ↦ some (finish (from_header grown))
        | body ↦ some (finish (from_body grown))
      ]
