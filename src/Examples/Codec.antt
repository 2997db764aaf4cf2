-- ===== src/Examples/Codec.antt =====
-- A codec for manifests, at which what is relied on of orjson holds: an object is one number above
-- 125 for each number and each character in it, between braces.
use Prim.Native.String.{String, [] as empty, ◌∷◌ as ◌then◌}
use mathlib.Core.List.{
  reverse, reverse-cons, reverse-reverse, append-eq-nil_iff, head-eq_of_cons-eq, tail-eq_of_cons-eq,
}
use bulk_http.Prelude.{
  All-append, append_assoc, ℕ, ◌+◌, ◌-◌, ◌≡◌, ◌≢◌, refl, ap, sym, ◌∙◌, subst, true, false, Option,
  none, some, [], ◌∷◌, ◌++◌, All, nat_beq, leb, map_option, if◌then◌else◌, arith,
}
use bulk_http.Prelude.Int.{pos}
use bulk_http.Floats.Millis.{millis}
use bulk_http.Value.{Value, int, str, dict, Fields, field, end}
use bulk_http.Bytes.{Bytes, newline, strip, lstrip, is_space}
use bulk_http.Bytes.Lines.{HasNoNewline, strip-line}
use bulk_http.Checkpoint.Store.{Entry, distributed_entry, committed_entry, encode}
use bulk_http.Checkpoint.Store.Codec.{Json}
use bulk_http.Examples.Chars.{codes, string_of, string_of-codes}

-- the numbers of an entry's dict, between the braces
numbers : Fields millis → Bytes
unfolding codes
numbers (field type kind (field id (int (pos n)) end)) = (n + 126) ∷ []
numbers
      (field type kind (
        field id
          (int (pos n))
          (field file (str w) (field at (int (pos o)) (field count (int (pos c)) end))))) =
    (n + 126) ∷ (o + 126) ∷ (c + 126) ∷ codes w
numbers fields = []

unfoldable pub dumps : Value millis → Bytes
unfolding numbers
dumps (dict fields) = 123 ∷ numbers fields ++ 125 ∷ []
dumps value = []

-- what stands in front of a brace that ends the text
closed : Bytes → Option Bytes
closed [] = none
closed (c ∷ cs) =
    let rest = closed cs in
    if nat_beq c 125
    then elim cs [ [] ↦ some [] | d ∷ ds ↦ none ]
    else if leb 126 c
    then map_option (λ bs. c ∷ bs) rest
    else none

committed : ℕ → ℕ → ℕ → Option String → Option (Value millis)
unfolding encode
committed n o c none = none
committed n o c (some w) = some (
    dict (
      encode {F = millis}
        (committed_entry (record { chunk_id = n; worker_file = w; offset = o; count = c }))))

entry_of : Bytes → Option (Value millis)
unfolding encode string_of committed
entry_of [] = none
entry_of (n ∷ []) = some (dict (encode {F = millis} (distributed_entry (n - 126))))
entry_of (n ∷ o ∷ []) = none
entry_of (n ∷ o ∷ c ∷ w) = committed (n - 126) (o - 126) (c - 126) (string_of w)

entry_in : Option Bytes → Option (Value millis)
unfolding entry_of
entry_in none = none
entry_in (some bs) = entry_of bs

unfoldable pub loads : Bytes → Option (Value millis)
unfolding closed entry_in
loads [] = none
loads (c ∷ cs) = if nat_beq c 123 then entry_in (closed cs) else none

unfoldable pub inner : Entry → Bytes
unfolding numbers encode
inner e = numbers (encode {F = millis} e)

abbrev pub AllHigh : Bytes → Type 0
AllHigh = All (λ c. leb 126 c ≡ true)

codes-AllHigh : (s : String) → AllHigh (codes s)
unfolding codes
codes-AllHigh empty = tt
codes-AllHigh (c then s) = (ground arith, codes-AllHigh s)

inner-AllHigh : (e : Entry) → AllHigh (inner e)
unfolding inner numbers encode
inner-AllHigh (distributed_entry n) = (ground arith, tt)
inner-AllHigh (committed_entry c) =
    (ground arith, (ground arith, (ground arith, codes-AllHigh c.worker_file)))

closed-brace : (bs : Bytes) → AllHigh bs → closed (bs ++ 125 ∷ []) ≡ some bs
unfolding closed
closed-brace [] h = refl
closed-brace (c ∷ cs) h = ground (arith, h.0, closed-brace cs h.1)

closed_open : (bs : Bytes) → AllHigh bs → closed bs ≡ none
unfolding closed
closed_open [] h = refl
closed_open (c ∷ cs) h = ground (arith, h.0, closed_open cs h.1)

closed_early : (p rest : Bytes) → closed (p ++ 123 ∷ rest) ≡ none
unfolding closed
closed_early [] rest = refl
closed_early (c ∷ []) rest = ground arith
closed_early (c ∷ d ∷ p) rest = ground (arith, closed_early (d ∷ p) rest)

back : (n : ℕ) → n + 126 - 126 ≡ n
back n = omega arith

entry_of-inner : (e : Entry) → entry_of (inner e) ≡ some (dict (encode {F = millis} e))
unfolding entry_of inner numbers encode committed
entry_of-inner (distributed_entry n) = rw (back n)
entry_of-inner (committed_entry c) =
    rw (back c.chunk_id, back c.offset, back c.count, string_of-codes c.worker_file)

abbrev pub text : Entry → Bytes
text e = dumps (dict (encode {F = millis} e))

pub in_braces : (e : Entry) → text e ≡ 123 ∷ inner e ++ 125 ∷ []
unfolding dumps inner
in_braces e = refl

pub loads-dumps : (e : Entry) → loads (text e) ≡ some (dict (encode {F = millis} e))
unfolding loads entry_in dumps inner
loads-dumps e = rw (closed-brace (inner e) (inner-AllHigh e)) (entry_of-inner e)

clean : (bs rest : Bytes) → AllHigh bs → HasNoNewline rest → HasNoNewline (bs ++ rest)
clean [] rest h k = k
clean (c ∷ bs) rest h k = (ground (arith, h.0), clean bs rest h.1 k)

pub one_line : (e : Entry) → HasNoNewline (text e)
unfolding dumps inner
one_line e = (refl, clean (inner e) (125 ∷ []) (inner-AllHigh e) (refl, tt))

AllHigh-prefix : (bs p q : Bytes) → AllHigh bs → p ++ q ≡ bs ++ 125 ∷ [] → q ≢ [] → AllHigh p
AllHigh-prefix bs [] q h e ne = tt
AllHigh-prefix [] (c ∷ p) q h e ne =
    let gone : p ++ q ≡ [] = tail-eq_of_cons-eq e in absurd (ne (append-eq-nil_iff.0 gone).1)
AllHigh-prefix (b ∷ bs) (c ∷ p) q h e ne =
    let more : p ++ q ≡ bs ++ 125 ∷ [] = tail-eq_of_cons-eq e in
    let first : c ≡ b = head-eq_of_cons-eq e in (rw first h.0, AllHigh-prefix bs p q h.1 more ne)

abbrev pub NoSpaces : Bytes → Type 0
NoSpaces = All (λ c. is_space c ≡ false)

lstrip-NoSpaces : (bs : Bytes) → NoSpaces bs → lstrip bs ≡ bs
unfolding lstrip
lstrip-NoSpaces [] h = refl
lstrip-NoSpaces (c ∷ bs) h = rw h.0

reverse-NoSpaces : (bs : Bytes) → NoSpaces bs → NoSpaces (reverse bs)
reverse-NoSpaces [] h = tt
reverse-NoSpaces (c ∷ bs) h =
    subst NoSpaces (sym (reverse-cons c bs)) (
      All-append (λ c. is_space c ≡ false) (reverse bs) (c ∷ []) (reverse-NoSpaces bs h.1)
        (h.0, tt))

strip-NoSpaces : (bs : Bytes) → NoSpaces bs → strip bs ≡ bs
unfolding strip
strip-NoSpaces bs h =
    ap (λ t. reverse (lstrip (reverse t))) (lstrip-NoSpaces bs h)
    ∙ ap reverse (lstrip-NoSpaces (reverse bs) (reverse-NoSpaces bs h))
    ∙ reverse-reverse bs

AllHigh-NoSpaces : (bs : Bytes) → AllHigh bs → NoSpaces bs
AllHigh-NoSpaces [] h = tt
AllHigh-NoSpaces (c ∷ bs) h = (ground (arith, h.0), AllHigh-NoSpaces bs h.1)

pub loads_torn : (e : Entry) (p q : Bytes) → p ++ q ≡ text e → q ≢ [] → loads (strip p) ≡ none
unfolding loads entry_in strip lstrip dumps inner
loads_torn e [] q h ne = refl
loads_torn e (c ∷ p) q h ne =
    let brace : c ≡ 123 = head-eq_of_cons-eq h in
    let high : AllHigh p =
      AllHigh-prefix (inner e) p q (inner-AllHigh e) (tail-eq_of_cons-eq h) ne in
    let whole : NoSpaces (123 ∷ p) = (refl, AllHigh-NoSpaces p high) in
    rw (brace, strip-NoSpaces (123 ∷ p) whole) (ap entry_in (closed_open p high))

pub loads_glued :
    (e e' : Entry) (p q : Bytes)
    → p ++ q ≡ text e
    → p ≢ []
    → loads (strip ((p ++ text e') ++ newline ∷ [])) ≡ none
unfolding loads entry_in dumps inner
loads_glued e e' [] q h ne = absurd (ne refl)
loads_glued e e' (c ∷ p) q h ne =
    let brace : c ≡ 123 = head-eq_of_cons-eq h in
    let line : p ++ text e' ≡ (p ++ (123 ∷ inner e')) ++ (125 ∷ []) =
      sym (append_assoc p (123 ∷ inner e') (125 ∷ [])) in
    rw (brace, line, strip-line (p ++ (123 ∷ inner e')))
      (ap entry_in (ap closed (sym line) ∙ closed_early p (inner e' ++ (125 ∷ []))))

abbrev pub codec : Json millis
codec = record {
  dumps = dumps;
  loads = loads;
  inner = inner;
  in_braces = in_braces;
  one_line = one_line;
  loads-dumps = loads-dumps;
  loads_torn = loads_torn;
  loads_glued = loads_glued;
}
