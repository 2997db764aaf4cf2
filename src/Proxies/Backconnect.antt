-- ===== src/Proxies/Backconnect.antt =====
-- src/bulk_http/proxies/backconnect.py: the gateway with sticky sessions. The generator of ids is a
-- parameter with a state of its own.
pub mod Sticky
use Prim.Native.String.{String, [], ◌∷◌, ◌++◌, begins}
use bulk_http.Prelude.{
  ℕ, zero, suc, Bool, true, false, Option, none, some, ◌==◌, string_keys, nat_keys, if◌then◌else◌,
}
use bulk_http.Except.{Except, ok, raise}
use bulk_http.Effects.{Stateful}
use bulk_http.Dict.{Dict, get, put}
use bulk_http.Texts.{is_in}

abbrev pub session_placeholder : String
session_placeholder = "{session}"

-- s.replace("{session}", u), `k` characters before the end of an occurrence
unfoldable pub replace_from : ℕ → String → String → String
replace_from k u [] = []
replace_from (suc k) u (c ∷ s) = replace_from k u s
replace_from zero u (c ∷ s) =
    let past = replace_from 8 u s in
    let rest = replace_from zero u s in
    if begins (c ∷ s) session_placeholder 1 0 == 1 then u ++ past else c ∷ rest

-- self._template.replace(_SESSION_PLACEHOLDER, session_id)
abbrev pub filled : String → String → String
filled template session_id = replace_from 0 session_id template

-- What a gateway keeps, with the state of its generator.
pub record Gateway (G : Type 0) : Type 0 where
  pub template : String
  pub sticky : Dict String String
  pub generator : G

module _ {G : Type 0} (id_generator : Stateful G String) where
  -- self._id_generator()
  unfoldable pub new_id : Stateful (Gateway G) String
  new_id b = let (r, g) = id_generator b.generator in (r, record b { generator = g })

  -- self._sticky.get(key) or self._id_generator(): an empty id counts as none
  unfoldable pub session_of : String → Stateful (Gateway G) String
  unfolding new_id
  session_of key b = elim (get key b.sticky) [
    | none ↦ new_id b
    | some id ↦ if id == "" then new_id b else (ok id, b)
  ]

  -- the branch of a key
  unfoldable pub sticky_for : String → Stateful (Gateway G) String
  unfolding session_of
  sticky_for key b =
      let (r, b') = session_of key b in
      elim r [
        | raise x ↦ (raise x, b')
        | ok id ↦ (ok (filled b.template id), record b' { sticky = put key id b'.sticky })
      ]

  -- the branch without a key
  unfoldable pub rotating : Stateful (Gateway G) String
  unfolding new_id
  rotating b =
      let (r, b') = new_id b in
      elim r [ raise x ↦ (raise x, b') | ok id ↦ (ok (filled b.template id), b') ]

  -- proxy_for
  unfoldable pub proxy_for : Option String → Stateful (Gateway G) String
  unfolding sticky_for rotating
  proxy_for key b =
      if is_in session_placeholder b.template
      then elim key [ none ↦ rotating b | some k ↦ sticky_for k b ]
      else (ok b.template, b)
