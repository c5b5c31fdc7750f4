-- ===== src/Resolver.antt =====
-- src/address_resolver.cpp: a destination on the command line, which is a Tailcat address or a DNS name
-- whose TXT records hold one. The DNS lookup is a parameter that answers with the bytes of a response.
pub mod Privacy
pub mod Response
use tailcat_in_c.Common.{
  ℕ, zero, suc, ◌+◌, ltb, ◌==◌, ◌%◌, ◌^◌, Bool, true, false, ◌&&◌, ◌||◌, not, List, [], ◌∷◌, ◌++◌,
  Bytes, codes, bytes_eq, starts_with, contains, split_on, empty, length, get_or, take, drop, shl,
  bit_or, bit_and, if◌then◌else◌, Result, ok, err, runtime_error, invalid_argument, out_of_fuel,
  ◌>>=◌, ◌>>◌, throw_if,
}
use tailcat_in_c.Protocol.Types.{ConnInfo}
use tailcat_in_c.Protocol.Address.Parse.{parse_tailcat_addr}

pub record ResolvedTailcatAddress : Type 0 where
  pub address : Bytes
  pub dns_name : Bytes
  pub via_dns : Bool

abbrev pub returned : Result ConnInfo → Bool
returned (ok info) = true
returned (err e) = false

-- Whether validate_tailcat_address returns.
unfoldable pub is_valid : Bytes → Bool
is_valid value = returned (parse_tailcat_addr value)

unfoldable pub label_is_tailcat_address : Bytes → Bool
label_is_tailcat_address label = starts_with label (codes "tc") && is_valid label

-- The parts between the dots.
unfoldable pub labels_of : Bytes → List Bytes
labels_of value = split_on b'.' value

-- The loop over the labels ends at the first that is an address.
unfoldable pub has_address : List Bytes → Bool
has_address [] = false
has_address (label ∷ labels) =
    let rest = has_address labels in if label_is_tailcat_address label then true else rest

unfoldable pub classify_tailcat_address_argument : Bytes → Result ResolvedTailcatAddress
classify_tailcat_address_argument value =
    throw_if (empty value) (invalid_argument "empty Tailcat destination")
    >> (if is_valid value
        then ok (record { address = value; dns_name = []; via_dns = false })
        else (throw_if (not (contains b'.' value))
              (invalid_argument "invalid Tailcat address or DNS name")
            >> (throw_if (has_address (labels_of value)) (
                  invalid_argument
                    "refusing DNS lookup: destination contains a Tailcat address as a DNS label")
                >> ok (record { address = []; dns_name = value; via_dns = true }))))

abbrev pub txt_prefix : Bytes
txt_prefix = codes "tailcat="

-- The loop over the records, with the address selected so far.
unfoldable pub select : Bytes → List Bytes → Result Bytes
select selected [] = ok selected
select selected (entry ∷ entries) =
    if not (starts_with entry txt_prefix)
    then select selected entries
    else (throw_if (empty (drop (length txt_prefix) entry))
          (runtime_error "empty tailcat= DNS TXT record")
        >> (throw_if (not (is_valid (drop (length txt_prefix) entry)))
              (runtime_error "invalid tailcat= DNS TXT record")
            >> (if empty selected
                then select (drop (length txt_prefix) entry) entries
                else (throw_if (not (bytes_eq selected (drop (length txt_prefix) entry)))
                      (runtime_error "DNS name has conflicting tailcat= TXT records")
                    >> select selected entries))))

unfoldable pub tailcat_address_from_txt : List Bytes → Result Bytes
tailcat_address_from_txt entries = select [] entries >>= (λ selected.
    throw_if (empty selected) (runtime_error "DNS name has no tailcat= TXT record") >> ok selected)

-- The response of a DNS server: `read16` and `skip_name` of query_txt_records. An offset is the number
-- of bytes behind it; a name takes a byte in each round, so the size is enough fuel.
module _ (response : Bytes) where
  unfoldable pub read16 : ℕ → Result ℕ
  read16 offset =
      if ltb (length response) (offset + 2)
      then err (runtime_error "truncated DNS TXT response")
      else ok
          (bit_or (shl 32 (get_or response offset 0) 8) (get_or response (offset + 1) 0) % 2 ^ 16)

  unfoldable pub skip_name : ℕ → ℕ → Result ℕ
  skip_name zero offset = err out_of_fuel
  skip_name (suc fuel) offset =
      let label = get_or response offset 0 in
      let rest = skip_name fuel (offset + 1 + label) in
      if not (ltb offset (length response))
      then err (runtime_error "truncated DNS name")
      else if label == 0
      then ok (offset + 1)
      else if bit_and label 0xc0 == 0xc0
      then (if not (ltb (offset + 1) (length response))
          then err (runtime_error "truncated DNS compression pointer")
          else ok (offset + 2))
      else if not (bit_and label 0xc0 == 0)
          || (ltb 63 label || ltb (length response) (offset + 1 + label))
      then err (runtime_error "invalid DNS name in TXT response")
      else rest

  unfoldable pub skip : ℕ → Result ℕ
  skip offset = skip_name (suc (length response)) offset

  unfoldable pub questions_loop : ℕ → ℕ → Result ℕ
  questions_loop zero offset = ok offset
  questions_loop (suc questions) offset = skip offset >>= (λ behind.
      throw_if (ltb (length response) (behind + 4)) (runtime_error "truncated DNS question")
      >> questions_loop questions (behind + 4))

  -- The strings of a record, appended to `value`; each takes the byte of its length at least.
  unfoldable pub txt_loop : ℕ → ℕ → ℕ → Bytes → Result Bytes
  txt_loop zero offset end value = err out_of_fuel
  txt_loop (suc fuel) offset end value =
      let part_length = get_or response offset 0 in
      let rest =
        txt_loop fuel (offset + 1 + part_length) end
          (value ++ take part_length (drop (offset + 1) response)) in
      if not (ltb offset end)
      then ok value
      else if ltb end (offset + 1 + part_length)
      then err (runtime_error "invalid DNS TXT string length")
      else rest

  -- A record of type TXT (16) and class IN (1) is kept, another skipped.
  unfoldable pub record_value : ℕ → ℕ → ℕ → ℕ → Result (List Bytes)
  record_value type klass offset end =
      if (type == 16) && (klass == 1)
      then txt_loop (suc (length response)) offset end [] >>= (λ value. ok (value ∷ []))
      else ok []

  unfoldable pub answers_loop : ℕ → ℕ → Result (List Bytes)
  answers_loop zero offset = ok []
  answers_loop (suc answers) offset = skip offset >>= (λ behind.
      throw_if (ltb (length response) (behind + 10)) (runtime_error "truncated DNS answer")
      >> (read16 behind >>= (λ type. read16 (behind + 2) >>= (λ klass.
          read16 (behind + 8) >>= (λ data_length.
            throw_if (ltb (length response) (behind + 10 + data_length))
              (runtime_error "truncated DNS answer data")
            >> (record_value type klass (behind + 10) (behind + 10 + data_length) >>= (λ value.
                answers_loop answers (behind + 10 + data_length)
                >>= (λ values. ok (value ++ values)))))))))

  unfoldable pub query_txt_records : Result (List Bytes)
  query_txt_records =
      throw_if (ltb (length response) 12) (runtime_error "short DNS TXT response")
      >> (read16 4 >>= (λ questions.
          read16 6
          >>= (λ answers. questions_loop questions 12 >>= (λ offset. answers_loop answers offset))))

-- `query` is res_query: the response to a question for TXT records.
module _ (query : Bytes → Result Bytes) where
  abbrev pub look_up : ResolvedTailcatAddress → Result ResolvedTailcatAddress
  look_up classified = query classified.dns_name >>= (λ response.
      query_txt_records response >>= (λ entries.
        tailcat_address_from_txt entries
        >>= (λ address. ok (record classified { address = address }))))

  unfoldable pub resolve_tailcat_address_argument : Bytes → Result ResolvedTailcatAddress
  resolve_tailcat_address_argument value =
      classify_tailcat_address_argument value
      >>= (λ classified. if not classified.via_dns then ok classified else look_up classified)
