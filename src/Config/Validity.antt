-- ===== src/Config/Validity.antt =====
-- What the checks of src/bulk_http/models.py and config.py leave true of a resolved request.
use bulk_http.Prelude.{
  ℕ, Bool, true, false, Option, none, some, contains, string_keys, not, ◌==◌, ◌≡◌, refl, arith,
}
use bulk_http.Prelude.Int.{ℤ, pos, negsuc, lt_num}
use bulk_http.Except.{ok, raise_if-ok, value_error}
use bulk_http.Floats.{Floats}
use bulk_http.Types.{methods, cut_on_values, http_versions, accept_encodings}
use bulk_http.Models.{Request, post_init, set_and, le_zero}
use bulk_http.Config.{
  ResolvedRequest, EngineConfig, bad_workers, check_config, effective, or_default, or_else,
}

pub ok_same : {A : Type 0} (a b : A) → ok a ≡ ok b → a ≡ b
ok_same a b h = cc

module _ {F : Floats} where
  -- What the transport and the retry loop rely on.
  pub record IsValid (q : ResolvedRequest F) : Type 0 where
    pub has_url : (q.url == "") ≡ false
    pub known_method : contains methods q.method ≡ true
    pub known_cut : contains cut_on_values q.cut_on ≡ true
    pub known_version : contains http_versions q.http_version ≡ true
    pub known_encoding : contains accept_encodings q.accept_encoding ≡ true
    pub cut_pos : set_and q.stream_cut le_zero ≡ false
    pub redirects : (n : ℕ) × (q.max_redirects ≡ pos n)
    pub timeout_pos : F.le_f q.timeout F.zero_f ≡ false
    pub total_pos : set_and q.total_timeout (λ t. F.le_f t F.zero_f) ≡ false
    pub rounds_left : (n : ℕ) × (q.retries ≡ pos n)

  -- what the checks of a request say
  record Checked (r r' : Request F) : Type 0 where
    returned : r ≡ r'
    has_url : (r.url == "") ≡ false
    known_method : contains methods r.method ≡ true
    known_cut : set_and r.cut_on (λ v. not (contains cut_on_values v)) ≡ false
    known_version : set_and r.http_version (λ v. not (contains http_versions v)) ≡ false
    known_encoding : set_and r.accept_encoding (λ v. not (contains accept_encodings v)) ≡ false
    cut_pos : set_and r.stream_cut le_zero ≡ false
    redirects : set_and r.max_redirects (λ z. lt_num z 0) ≡ false
    timeout_pos : set_and r.timeout (λ t. F.le_f t F.zero_f) ≡ false
    total_pos : set_and r.total_timeout (λ t. F.le_f t F.zero_f) ≡ false
    rounds_left : set_and r.retries (λ z. lt_num z 0) ≡ false

  post_init-Checked : (r r' : Request F) → post_init r ≡ ok r' → Checked r r'
  unfolding post_init
  post_init-Checked r r' h =
      let (c0, h0) = raise_if-ok (r.url == "") value_error _ r' h in
      let (c1, h1) = raise_if-ok (not (contains methods r.method)) value_error _ r' h0 in
      let (c2, h2) =
        raise_if-ok (set_and r.cut_on (λ v. not (contains cut_on_values v))) value_error _ r' h1 in
      let (c3, h3) =
        raise_if-ok (set_and r.http_version (λ v. not (contains http_versions v))) value_error _ r'
          h2 in
      let (c4, h4) =
        raise_if-ok (set_and r.accept_encoding (λ v. not (contains accept_encodings v))) value_error
          _ r' h3 in
      let (c5, h5) = raise_if-ok (set_and r.stream_cut le_zero) value_error _ r' h4 in
      let (c6, h6) = raise_if-ok (set_and r.max_redirects (λ z. lt_num z 0)) value_error _ r' h5 in
      let (c7, h7) = raise_if-ok (set_and r.timeout (λ t. F.le_f t F.zero_f)) value_error _ r' h6 in
      let (c8, h8) =
        raise_if-ok (set_and r.total_timeout (λ t. F.le_f t F.zero_f)) value_error _ r' h7 in
      let (c9, h9) = raise_if-ok (set_and r.retries (λ z. lt_num z 0)) value_error _ r' h8 in
      record {
        returned = ok_same r r' h9;
        has_url = c0;
        known_method = ground (arith, c1);
        known_cut = c2;
        known_version = c3;
        known_encoding = c4;
        cut_pos = c5;
        redirects = c6;
        timeout_pos = c7;
        total_pos = c8;
        rounds_left = c9;
      }

  -- and those of the engine's defaults
  record CheckedConfig (c : EngineConfig F) : Type 0 where
    cut_pos : set_and c.stream_cut le_zero ≡ false
    known_cut : not (contains cut_on_values c.cut_on) ≡ false
    known_version : not (contains http_versions c.http_version) ≡ false
    known_encoding : not (contains accept_encodings c.accept_encoding) ≡ false
    redirects : lt_num c.max_redirects 0 ≡ false
    timeout_pos : F.le_f c.timeout F.zero_f ≡ false
    total_pos : set_and c.total_timeout (λ t. F.le_f t F.zero_f) ≡ false
    rounds_left : lt_num c.retries 0 ≡ false

  check_config-CheckedConfig : (c c' : EngineConfig F) → check_config c ≡ ok c' → CheckedConfig c
  unfolding check_config
  check_config-CheckedConfig c c' h =
      let (c0, h0) = raise_if-ok (bad_workers c.workers) value_error _ c' h in
      let (c1, h1) = raise_if-ok (lt_num c.concurrency_per_worker 1) value_error _ c' h0 in
      let (c2, h2) = raise_if-ok (lt_num c.chunk_size 1) value_error _ c' h1 in
      let (c3, h3) = raise_if-ok (lt_num c.in_flight_batches 1) value_error _ c' h2 in
      let (c4, h4) =
        raise_if-ok (set_and c.max_tasks_per_child (λ z. lt_num z 1)) value_error _ c' h3 in
      let (c5, h5) = raise_if-ok (set_and c.stream_cut le_zero) value_error _ c' h4 in
      let (c6, h6) = raise_if-ok (not (contains cut_on_values c.cut_on)) value_error _ c' h5 in
      let (c7, h7) =
        raise_if-ok (not (contains http_versions c.http_version)) value_error _ c' h6 in
      let (c8, h8) =
        raise_if-ok (not (contains accept_encodings c.accept_encoding)) value_error _ c' h7 in
      let (c9, h9) = raise_if-ok (lt_num c.max_redirects 0) value_error _ c' h8 in
      let (c10, h10) = raise_if-ok (F.le_f c.timeout F.zero_f) value_error _ c' h9 in
      let (c11, h11) =
        raise_if-ok (set_and c.total_timeout (λ t. F.le_f t F.zero_f)) value_error _ c' h10 in
      let (c12, h12) = raise_if-ok (lt_num c.retries 0) value_error _ c' h11 in
      let (c13, h13) =
        raise_if-ok (set_and c.per_domain_rate_limit (λ r. F.le_f r F.zero_f)) value_error _ c'
          h12 in
      record {
        cut_pos = c5;
        known_cut = c6;
        known_version = c7;
        known_encoding = c8;
        redirects = c9;
        timeout_pos = c10;
        total_pos = c11;
        rounds_left = c12;
      }

chosen {ℓ} :
    {A : Type ℓ} (o : Option A) (default : A) (p : A → Bool)
    → set_and o (λ a. not (p a)) ≡ false
    → not (p default) ≡ false
    → p (or_default o default) ≡ true
chosen none default p h k = ground (arith, k)
chosen (some a) default p h k = ground (arith, h)

chosen_not {ℓ} :
    {A : Type ℓ} (o : Option A) (default : A) (p : A → Bool)
    → set_and o p ≡ false
    → p default ≡ false
    → p (or_default o default) ≡ false
chosen_not none default p h k = k
chosen_not (some a) default p h k = h

either_not {ℓ} :
    {A : Type ℓ} (o default : Option A) (p : A → Bool)
    → set_and o p ≡ false
    → set_and default p ≡ false
    → set_and (or_else o default) p ≡ false
either_not none default p h k = k
either_not (some a) default p h k = h

natural : (z : ℤ) → lt_num z 0 ≡ false → (n : ℕ) × (z ≡ pos n)
natural (pos n) h = (n, refl)
natural (negsuc n) h = absurd (ground arith)

module _ {F : Floats} where
  -- Under a configuration and from a request that both passed their constructors' checks, the
  -- resolved request is valid: its choices are known ones, its timeouts are positive, and its
  -- redirects and its retries are not negative.
  pub effective-IsValid :
      (c c' : EngineConfig F) (r r' : Request F)
      → check_config c ≡ ok c'
      → post_init r ≡ ok r'
      → IsValid (effective c r)
  unfolding effective
  effective-IsValid c c' r r' configured requested =
      let d = check_config-CheckedConfig c c' configured in
      let q = post_init-Checked r r' requested in
      record {
        has_url = q.has_url;
        known_method = q.known_method;
        known_cut = chosen r.cut_on c.cut_on (contains cut_on_values) q.known_cut d.known_cut;
        known_version =
            chosen r.http_version c.http_version (contains http_versions) q.known_version
              d.known_version;
        known_encoding =
            chosen r.accept_encoding c.accept_encoding (contains accept_encodings) q.known_encoding
              d.known_encoding;
        cut_pos = either_not r.stream_cut c.stream_cut le_zero q.cut_pos d.cut_pos;
        redirects =
            natural _ (
              chosen_not r.max_redirects c.max_redirects (λ z. lt_num z 0) q.redirects d.redirects);
        timeout_pos =
            chosen_not r.timeout c.timeout (λ t. F.le_f t F.zero_f) q.timeout_pos d.timeout_pos;
        total_pos =
            either_not r.total_timeout c.total_timeout (λ t. F.le_f t F.zero_f) q.total_pos
              d.total_pos;
        rounds_left =
            natural _
              (chosen_not r.retries c.retries (λ z. lt_num z 0) q.rounds_left d.rounds_left);
      }

  -- the checks of a request return it
  pub post_init_same : (r r' : Request F) → post_init r ≡ ok r' → r ≡ r'
  post_init_same r r' h = (post_init-Checked r r' h).returned
