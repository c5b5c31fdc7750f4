-- ===== src/Resolver/Response.antt =====
-- The parser of DNS responses of src/address_resolver.cpp ends.
use Prim.Native.String.{String}
use tailcat_in_c.Common.{
  ℕ, zero, suc, ◌+◌, ◌≤◌, ◌<◌, ltb, ◌==◌, ◌≡◌, refl, true, false, ◌||◌, ◌&&◌, not, List, [], ◌++◌,
  Bool, Bytes, length, length-append, length-take, take, drop, get_or, bit_and, runtime_error,
  throw_if, Ensures, returns, throws, Ensures-bind, runtime-ne, arith, Each, Each-append, if-holds,
}
use tailcat_in_c.Resolver.{
  read16, skip_name, skip, questions_loop, txt_loop, record_value, answers_loop, query_txt_records,
}

throws_if :
    (bad : Bool) (text : String)
    → Ensures (λ (_ : Unit {0}). bad ≡ false) (throw_if bad (runtime_error text))
throws_if true text = throws runtime-ne
throws_if false text = returns refl

module _ (response : Bytes) where
  read16-Ends : (offset : ℕ) → Ensures (λ n. Unit {0}) (read16 response offset)
  unfolding read16
  read16-Ends offset =
      if-holds (Ensures (λ n. Unit {0})) (ltb (length response) (offset + 2))
        (λ _. throws runtime-ne) (λ _. returns tt)

  skip_name-Ends :
      (fuel offset : ℕ)
      → length response < offset + fuel
      → offset ≤ length response
      → Ensures (λ behind. Unit {0}) (skip_name response fuel offset)
  unfolding skip_name
  skip_name-Ends zero offset h l = absurd (omega arith)
  skip_name-Ends (suc fuel) offset h l =
      if-holds (Ensures (λ behind. Unit {0})) (not (ltb offset (length response)))
        (λ _. throws runtime-ne)
        (λ _.
          if-holds (Ensures (λ behind. Unit {0})) (get_or response offset 0 == 0) (λ _. returns tt)
            (λ _.
              if-holds (Ensures (λ behind. Unit {0}))
                (bit_and (get_or response offset 0) 0xc0 == 0xc0)
                (λ _.
                  if-holds (Ensures (λ behind. Unit {0})) (not (ltb (offset + 1) (length response)))
                    (λ _. throws runtime-ne) (λ _. returns tt))
                (λ _.
                  if-holds (Ensures (λ behind. Unit {0}))
                    (not (bit_and (get_or response offset 0) 0xc0 == 0)
                      || (ltb 63 (get_or response offset 0)
                          || ltb (length response) (offset + 1 + get_or response offset 0)))
                    (λ _. throws runtime-ne)
                    (λ e.
                      skip_name-Ends fuel (offset + 1 + get_or response offset 0) (omega arith)
                        (ground arith)))))

  skip-Ends :
      (offset : ℕ) → offset ≤ length response → Ensures (λ behind. Unit {0}) (skip response offset)
  unfolding skip
  skip-Ends offset l = skip_name-Ends (suc (length response)) offset (omega arith) l

  part-length :
      (value : Bytes) (n m : ℕ) → length (value ++ take n (drop m response)) ≤ length value + n
  part-length value n m =
      omega (arith, length-append value (take n (drop m response)), length-take n (drop m response))

  txt_loop-Ends :
      (fuel offset end : ℕ) (value : Bytes)
      → end < offset + fuel
      → offset ≤ end
      → length value ≤ offset
      → Ensures (λ v. length v ≤ end) (txt_loop response fuel offset end value)
  unfolding txt_loop
  txt_loop-Ends zero offset end value h l v = absurd (omega arith)
  txt_loop-Ends (suc fuel) offset end value h l v =
      let part_length = get_or response offset 0 in
      let more = part-length value part_length (offset + 1) in
      if-holds (Ensures (λ v. length v ≤ end)) (not (ltb offset end)) (λ _. returns (omega arith))
        (λ _.
          if-holds (Ensures (λ v. length v ≤ end)) (ltb end (offset + 1 + part_length))
            (λ _. throws runtime-ne)
            (λ e.
              txt_loop-Ends fuel (offset + 1 + part_length) end _ (omega arith) (ground arith)
                (omega (arith, more))))

  questions_loop-Ends :
      (questions offset : ℕ)
      → offset ≤ length response
      → Ensures (λ behind. behind ≤ length response) (questions_loop response questions offset)
  unfolding questions_loop
  questions_loop-Ends zero offset l = returns l
  questions_loop-Ends (suc questions) offset l = Ensures-bind (skip-Ends offset l) (λ behind _.
      Ensures-bind (throws_if (ltb (length response) (behind + 4)) "truncated DNS question")
        (λ _ e. questions_loop-Ends questions (behind + 4) (ground arith)))

  -- Texts no longer than the response.
  abbrev pub AreShort : List Bytes → Type 0
  AreShort values = Each (λ value. length value ≤ length response) values

  record_value-Ends :
      (type klass offset end : ℕ)
      → offset ≤ end
      → end ≤ length response
      → Ensures AreShort (record_value response type klass offset end)
  unfolding record_value
  record_value-Ends type klass offset end l k =
      if-holds (Ensures AreShort) ((type == 16) && (klass == 1))
        (λ _.
          Ensures-bind
            (txt_loop-Ends (suc (length response)) offset end [] (omega arith) l (omega arith))
            (λ value v. returns (omega arith, tt)))
        (λ _. returns tt)

  answers_loop-Ends :
      (answers offset : ℕ)
      → offset ≤ length response
      → Ensures AreShort (answers_loop response answers offset)
  unfolding answers_loop
  answers_loop-Ends zero offset l = returns tt
  answers_loop-Ends (suc answers) offset l = Ensures-bind (skip-Ends offset l) (λ behind _.
      Ensures-bind (throws_if (ltb (length response) (behind + 10)) "truncated DNS answer") (λ _ _.
        Ensures-bind (read16-Ends behind) (λ type _.
          Ensures-bind (read16-Ends (behind + 2)) (λ klass _.
            Ensures-bind (read16-Ends (behind + 8)) (λ data_length _.
              Ensures-bind
                (throws_if (ltb (length response) (behind + 10 + data_length))
                  "truncated DNS answer data")
                (λ _ e.
                  Ensures-bind
                    (record_value-Ends type klass (behind + 10) (behind + 10 + data_length)
                      (omega arith) (ground arith))
                    (λ value v.
                      Ensures-bind
                        (answers_loop-Ends answers (behind + 10 + data_length) (ground arith))
                        (λ values vs. returns (Each-append _ value values v vs)))))))))

  -- On a DNS response of any bytes the parser ends: it throws an exception of the program, or
  -- returns texts none of which is longer than the response.
  pub query_txt_records-Ends : Ensures AreShort (query_txt_records response)
  unfolding query_txt_records
  query_txt_records-Ends =
      Ensures-bind (throws_if (ltb (length response) 12) "short DNS TXT response") (λ _ e.
        Ensures-bind (read16-Ends 4) (λ questions _. Ensures-bind (read16-Ends 6) (λ answers _.
          Ensures-bind (questions_loop-Ends questions 12 (ground arith))
            (λ offset l. answers_loop-Ends answers offset l))))
