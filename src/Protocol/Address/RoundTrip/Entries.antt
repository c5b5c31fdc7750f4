-- ===== src/Protocol/Address/RoundTrip/Entries.antt =====
-- Optional entries of a map: one round of the reading loop for each that was written.
use tailcat_in_c.Common.{
  ℕ, zero, suc, ◌+◌, ◌^◌, ◌≤◌, ◌<◌, ◌≡◌, refl, ap, ◌∙◌, Bool, true, false, not, [], ◌∷◌, ◌++◌,
  append_assoc, arith, Bytes, IsBytes, empty, length, ok, Error, err,
}
use tailcat_in_c.Protocol.Cbor.Int64.{ℤ, pos, negsuc, nonzero}
use tailcat_in_c.Protocol.Cbor.Reader.{Reader, for_count}
use tailcat_in_c.Protocol.Cbor.Writer
use tailcat_in_c.Protocol.Cbor.Items.{text-text}
use tailcat_in_c.Protocol.Address.Parse.{entry}
use tailcat_in_c.Protocol.Address.Encode.{flag, when}

-- A string that a length field can hold.
abbrev pub IsText : Bytes → Type 0
IsText s = IsBytes s × (length s < 2 ^ 64)

pub for_count_step :
    {S : Type 0} (m : ℕ) (body : S → Reader S) (s s' : S) (bs rest : Bytes)
    → body s bs ≡ ok (s', rest)
    → for_count (suc m) body s bs ≡ for_count m body s' rest
unfolding for_count
for_count_step m body s s' bs rest h = rw h

pub for_count_end :
    {S : Type 0} (body : S → Reader S) (s : S) (bs : Bytes) → for_count 0 body s bs ≡ ok (s, bs)
unfolding for_count
for_count_end body s bs = refl

entry-text :
    {S : Type 0} (field : Bytes → S → Reader S) (key value rest : Bytes) (s s' : S)
    → length key < 2 ^ 64
    → field key s (value ++ rest) ≡ ok (s', rest)
    → entry field s ((Writer.text key ++ value) ++ rest) ≡ ok (s', rest)
unfolding entry
entry-text field key value rest s s' hk h =
    rw (append_assoc (Writer.text key) value rest, text-text key (value ++ rest) hk) h

-- An entry that was written is read; one that was not leaves the state as it is.
pub optional_entry :
    {S : Type 0} (field : Bytes → S → Reader S) (b : Bool) (m : ℕ) (key value rest : Bytes)
    (s s' : S)
    → length key < 2 ^ 64
    → (b ≡ true → field key s (value ++ rest) ≡ ok (s', rest))
    → (b ≡ false → s ≡ s')
    → for_count (flag b + m) (entry field) s (when b (Writer.text key ++ value) ++ rest)
      ≡ for_count m (entry field) s' rest
optional_entry field true m key value rest s s' hk present absent =
    ap (λ n. for_count n (entry field) s ((Writer.text key ++ value) ++ rest)) (omega arith)
    ∙ for_count_step m (entry field) s s' _ rest
        (entry-text field key value rest s s' hk (present refl))
optional_entry field false m key value rest s s' hk present absent =
    ap (λ n. for_count n (entry field) s rest) (omega arith)
    ∙ ap (λ t. for_count m (entry field) t rest) (absent refl)

-- An entry that is refused ends the loop.
pub required_entry-err :
    {S : Type 0} (field : Bytes → S → Reader S) (b : Bool) (m : ℕ) (key value rest : Bytes) (s : S)
    (x : Error)
    → length key < 2 ^ 64
    → b ≡ true
    → field key s (value ++ rest) ≡ err x
    → for_count (flag b + m) (entry field) s (when b (Writer.text key ++ value) ++ rest) ≡ err x
unfolding for_count entry
required_entry-err field true m key value rest s x hk e h =
    ap (λ n. for_count n (entry field) s ((Writer.text key ++ value) ++ rest)) (one_more m)
    ∙ rw (append_assoc (Writer.text key) value rest, text-text key (value ++ rest) hk) (rw h)
  where
    one_more : (m : ℕ) → 1 + m ≡ suc m
    one_more m = omega arith
required_entry-err field false m key value rest s x hk e h = cc

pub empty_or : (s : Bytes) → not (empty s) ≡ false → [] ≡ s
empty_or [] h = refl
empty_or (c ∷ s) h = cc

pub zero_or : (z : ℤ) → nonzero z ≡ false → pos 0 ≡ z
zero_or (pos zero) h = refl
zero_or (pos (suc n)) h = cc
zero_or (negsuc n) h = cc

pub when-IsBytes : (b : Bool) (item : Bytes) → IsBytes item → IsBytes (when b item)
when-IsBytes true item h = h
when-IsBytes false item h = tt

pub flag-le : (b : Bool) → flag b ≤ 1
flag-le true = omega arith
flag-le false = omega arith
