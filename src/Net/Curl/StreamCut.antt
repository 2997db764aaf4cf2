-- ===== src/Net/Curl/StreamCut.antt =====
-- The loop of Stream-Cut in src/bulk_http/net/curl.py, over bodies that may have no end.
use bulk_http.Prelude.{
  ℕ, zero, suc, ◌+◌, ◌≤◌, ◌<◌, ◌≡◌, refl, ap, sym, ◌∙◌, subst, arith, String, Bool, true, false,
  Option, [], ◌++◌, length, length-append, string_keys, inl, inr, ◌⊎◌,
}
use bulk_http.Prelude.Int.{pos}
use bulk_http.Except.{Except, ok, raise}
use bulk_http.Bytes.{Bytes}
use bulk_http.Texts.{Texts}
use bulk_http.Decompress.{Codecs}
use bulk_http.Net.Curl.{
  Pull, chunk, finished, broken, Attempt, got, curl_error, raises, running, read_body, is_reached,
}

module _ (reached : Bytes → Except Bool) (pulls : ℕ → Pull) where
  -- the bytes of the pulls before `k`, those that are chunks
  pub bytes_of : Pull → Bytes
  bytes_of (chunk c) = c
  bytes_of finished = []
  bytes_of (broken name) = []

  pub read_before : ℕ → Bytes
  read_before zero = []
  read_before (suc k) = read_before k ++ bytes_of (pulls k)

  pub IsChunk : Pull → Type 0
  IsChunk p = p ≡ chunk (bytes_of p)

  -- The loop passes over the pulls before `k`: they are chunks, and with none of them the bytes so
  -- far reach the threshold.
  pub PassesOver : ℕ → Type 0
  PassesOver zero = Unit
  PassesOver (suc k) = PassesOver k × IsChunk (pulls k) × (reached (read_before (suc k)) ≡ ok false)

  -- What the loop may give, by the pull `k` at which it stops.
  pub StopsAt : ℕ → Attempt (Bytes × Bool) → Type 0
  StopsAt k (got (b, true)) = IsChunk (pulls k) × (b ≡ read_before (suc k)) × (reached b ≡ ok true)
  StopsAt k (got (b, false)) = (pulls k ≡ finished) × (b ≡ read_before k)
  StopsAt k (curl_error name) = pulls k ≡ broken name
  StopsAt k (raises x) = IsChunk (pulls k) × (reached (read_before (suc k)) ≡ raise x)
  StopsAt k running = ⊥

  -- the loop stops, or it is still running after `n` pulls more
  pub Reads : ℕ → ℕ → Attempt (Bytes × Bool) → Type 0
  Reads n i out =
      ((k : ℕ) × (k < i + n) × PassesOver k × StopsAt k out)
      ⊎ (PassesOver (i + n) × (out ≡ running))

  -- one round, by what is pulled
  read_body-finished :
      (n i : ℕ) (b : Bytes)
      → pulls i ≡ finished
      → read_body reached pulls (suc n) i b ≡ got (b, false)
  unfolding read_body
  read_body-finished n i b e = rw (e, read_body) refl

  read_body-broken :
      (n i : ℕ) (b : Bytes) (name : String)
      → pulls i ≡ broken name
      → read_body reached pulls (suc n) i b ≡ curl_error name
  unfolding read_body
  read_body-broken n i b name e = rw (e, read_body) refl

  after_chunk : ℕ → ℕ → Bytes → Except Bool → Attempt (Bytes × Bool)
  after_chunk n i b (raise x) = raises x
  after_chunk n i b (ok true) = got (b, true)
  after_chunk n i b (ok false) = read_body reached pulls n (suc i) b

  read_body-chunk :
      (n i : ℕ) (b c : Bytes)
      → pulls i ≡ chunk c
      → read_body reached pulls (suc n) i b ≡ after_chunk n i (b ++ c) (reached (b ++ c))
  unfolding read_body after_chunk
  read_body-chunk n i b c e = ground (arith, e)

  Pull-cases :
      (p : Pull)
      → ((c : Bytes) × (p ≡ chunk c)) ⊎ (p ≡ finished) ⊎ ((name : String) × (p ≡ broken name))
  Pull-cases (chunk c) = inl (c, refl)
  Pull-cases finished = inr (inl refl)
  Pull-cases (broken name) = inr (inr (name, refl))

  later : (n i : ℕ) (out : Attempt (Bytes × Bool)) → Reads n (suc i) out → Reads (suc n) i out
  unfolding Reads
  later n i out (inl (k, below, over, stops)) = inl (k, omega arith, over, stops)
  later n i out (inr (over, e)) =
      let same : suc i + n ≡ i + suc n = omega arith in inr (subst PassesOver same over, e)

  stops_here :
      (n i : ℕ) (out : Attempt (Bytes × Bool)) → PassesOver i → StopsAt i out → Reads (suc n) i out
  unfolding Reads
  stops_here n i out over stops = inl (i, omega arith, over, stops)

  -- a chunk was pulled, with this verdict on the bytes so far
  chunk-Reads :
      (n i : ℕ) (v : Except Bool)
      → PassesOver i
      → IsChunk (pulls i)
      → reached (read_before (suc i)) ≡ v
      → (PassesOver (suc i)
          → Reads n (suc i) (read_body reached pulls n (suc i) (read_before (suc i))))
      → Reads (suc n) i (after_chunk n i (read_before (suc i)) v)
  unfolding after_chunk StopsAt PassesOver
  chunk-Reads n i (raise x) over c e rest = stops_here n i (raises x) over (c, e)
  chunk-Reads n i (ok true) over c e rest = stops_here n i _ over (c, refl, e)
  chunk-Reads n i (ok false) over c e rest = later n i _ (rest (over, c, e))

  read_body-Reads :
      (n i : ℕ) → PassesOver i → Reads n i (read_body reached pulls n i (read_before i))
  unfolding Reads StopsAt read_body bytes_of IsChunk read_before
  read_body-Reads zero i over =
      let same : i ≡ i + 0 = omega arith in inr (subst PassesOver same over, refl)
  read_body-Reads (suc n) i over = elim (Pull-cases (pulls i)) [
    | inr (inl e) ↦
        subst (Reads (suc n) i) (sym (read_body-finished n i (read_before i) e))
          (stops_here n i _ over (e, refl))
    | inr (inr (name, e)) ↦
        subst (Reads (suc n) i) (sym (read_body-broken n i (read_before i) name e))
          (stops_here n i _ over e)
    | inl (c, e) ↦
        let is_chunk : IsChunk (pulls i) = e ∙ ap chunk (sym (ap bytes_of e)) in
        subst (Reads (suc n) i)
          (sym (read_body-chunk n i (read_before i) (bytes_of (pulls i)) is_chunk))
          (chunk-Reads n i (reached (read_before (suc i))) over is_chunk refl
            (read_body-Reads n (suc i)))
  ]

-- every chunk has a byte in it
abbrev pub AreNonempty : (ℕ → Pull) → Type 0
AreNonempty pulls = (k : ℕ) (c : Bytes) → pulls k ≡ chunk c → 0 < length c

-- the test of the loop on the wire
abbrev pub wire_test : Codecs → Texts → Option String → ℕ → Bytes → Except Bool
wire_test C T coding t = is_reached C T "wire" coding (pos t)

module _ (C : Codecs) (T : Texts) (coding : Option String) (t : ℕ) (pulls : ℕ → Pull)
    (nonempty : AreNonempty pulls) where
  abbrev on_wire : Bytes → Except Bool
  on_wire = wire_test C T coding t

  passed : (k : ℕ) → PassesOver on_wire pulls k → k ≤ length (read_before on_wire pulls k)
  unfolding PassesOver read_before IsChunk
  passed zero over = omega arith
  passed (suc k) over = omega (
    arith,
    passed k over.0,
    nonempty k _ over.1,
    length-append (read_before on_wire pulls k) (bytes_of on_wire pulls (pulls k)),
  )

  -- so fewer pulls are passed over than the threshold has bytes
  passed_few : (k : ℕ) → 0 < t → PassesOver on_wire pulls k → k < t
  unfolding is_reached PassesOver
  passed_few zero some_bytes over = some_bytes
  passed_few (suc k) some_bytes over = ground (arith, over.2, passed (suc k) over)

  -- Stream-Cut on the wire ends on every body whose chunks are not empty, without end or not: with
  -- as many pulls as the threshold has bytes, or more, the loop stops at a pull before that number.
  -- It breaks off at the first chunk with which the bytes so far reach the threshold and returns
  -- just these bytes; a body that ends before is returned whole, unmarked; a CurlError of the body
  -- before that is passed on.
  pub read_body-stops :
      (n : ℕ)
      → 0 < t
      → t ≤ n
      → (k : ℕ) × (k < t)
        × PassesOver on_wire pulls k
        × StopsAt on_wire pulls k (read_body on_wire pulls n 0 [])
  unfolding Reads read_before PassesOver
  read_body-stops n some_bytes enough = elim (read_body-Reads on_wire pulls n 0 tt) [
    | inl (k, below, over, stops) ↦ (k, passed_few k some_bytes over, over, stops)
    | inr (over, e) ↦ absurd (omega (arith, passed_few (0 + n) some_bytes over, enough))
  ]

  -- a loop on the wire that stops at a chunk breaks off there
  chunk_cut :
      (k : ℕ) (c : Bytes) (out : Attempt (Bytes × Bool))
      → pulls k ≡ chunk c
      → StopsAt on_wire pulls k out
      → (b : Bytes) × (out ≡ got (b, true))
        × (b ≡ read_before on_wire pulls (suc k))
        × (t ≤ length b)
  unfolding StopsAt is_reached
  chunk_cut k c (got (b, true)) e stops = (b, refl, stops.1, ground (arith, stops.2))
  chunk_cut k c (got (b, false)) e stops = absurd (ground (arith, sym stops.0 ∙ e))
  chunk_cut k c (curl_error name) e stops = absurd (ground (arith, sym stops ∙ e))
  chunk_cut k c (raises x) e stops = absurd (ground (arith, stops.1))
  chunk_cut k c running e stops = absurd stops

  -- a body that goes on until the threshold is cut off
  pub read_body_cuts :
      (n : ℕ)
      → 0 < t
      → t ≤ n
      → ((k : ℕ) → k < t → (c : Bytes) × (pulls k ≡ chunk c))
      → (k : ℕ) × (b : Bytes) × (k < t)
        × PassesOver on_wire pulls k
        × (read_body on_wire pulls n 0 [] ≡ got (b, true))
        × (b ≡ read_before on_wire pulls (suc k))
        × (t ≤ length b)
  read_body_cuts n some_bytes enough goes_on =
      let (k, below, over, stops) = read_body-stops n some_bytes enough in
      let (c, e) = goes_on k below in
      let (b, out, all, long) = chunk_cut k c (read_body on_wire pulls n 0 []) e stops in
      (k, b, below, over, out, all, long)
