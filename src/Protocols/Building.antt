-- ===== src/Protocols/Building.antt =====
-- Which protocols `build_protocols` of src/core/gateway.rs builds.
use iron_babel.Base.{
  ◌≡◌, refl, sym, ap, ap₂, ◌∙◌, ◌↔◌, List, [], ◌∷◌, map, retain, inl, inr, Bool-cases,
  if◌then◌else◌,
}
use iron_babel.Text.{Str, text, str_eq}
use iron_babel.Text.Laws.{str_eq_iff}
use iron_babel.Error.{Result, ok, >>=-eq-ok, ok_injective}
use iron_babel.Config.Types.{ProtocolConfig}
use iron_babel.Protocols.{Protocol, name, protocol_of, collect_protocols, build_protocols}

protocol_of-name : (p : Protocol) → protocol_of (name p) ≡ ok p
unfolding protocol_of name text str_eq
protocol_of-name Protocol.http = refl
protocol_of-name Protocol.grpc = refl
protocol_of-name Protocol.graphql = refl
protocol_of-name Protocol.amqp = refl
protocol_of-name Protocol.mqtt = refl
protocol_of-name Protocol.web_socket = refl
protocol_of-name Protocol.zmq = refl

-- One test of the chain, if the protocols that the others give are named right.
tested :
    (s t : Str) (q p : Protocol) (rest : Result Protocol)
    → name q ≡ t
    → (rest ≡ ok p → name p ≡ s)
    → (if str_eq s t then ok q else rest) ≡ ok p
    → name p ≡ s
tested s t q p rest named others h = elim (Bool-cases (str_eq s t)) [
  | inl same ↦
      let found : q ≡ p = ok_injective (rw same at h) in
      sym (ap name found) ∙ (named ∙ sym ((str_eq_iff s t).0 same))
  | inr other ↦ others (rw other at h)
]

name-protocol_of : (s : Str) (p : Protocol) → protocol_of s ≡ ok p → name p ≡ s
unfolding protocol_of name
name-protocol_of s p h =
    tested s (text "http") Protocol.http p _ refl
      (tested s (text "grpc") Protocol.grpc p _ refl (
        tested s (text "graphql") Protocol.graphql p _ refl (
          tested s (text "amqp") Protocol.amqp p _ refl (
            tested s (text "mqtt") Protocol.mqtt p _ refl (
              tested s (text "websocket") Protocol.web_socket p _ refl
                (tested s (text "zmq") Protocol.zmq p _ refl (λ e. cc)))))))
      h

module _ {V : Type 0} where
  collect_protocols_iff :
      (configs : List (ProtocolConfig V)) (ps : List Protocol)
      → (collect_protocols configs ≡ ok ps) ↔ (map name ps ≡ map (λ c. c.name) configs)
  unfolding collect_protocols
  collect_protocols_iff [] [] = (λ _. refl, λ _. refl)
  collect_protocols_iff [] (p ∷ ps) = (λ h. cc, λ h. cc)
  collect_protocols_iff (c ∷ configs) ps = (
    λ h.
        let (q, found, h1) = >>=-eq-ok (protocol_of c.name) _ h in
        let (qs, others, h2) = >>=-eq-ok (collect_protocols configs) _ h1 in
        let same : q ∷ qs ≡ ps = ok_injective h2 in
        sym (ap (map name) same)
        ∙ ap₂ (λ n ns. n ∷ ns) (name-protocol_of c.name q found)
            ((collect_protocols_iff configs qs).0 others),
    λ h. all_found ps h (λ qs. (collect_protocols_iff configs qs).1),
  )
    where
      all_found :
          (qs : List Protocol)
          → map name qs ≡ c.name ∷ map (λ d. d.name) configs
          → ((rs : List Protocol)
              → map name rs ≡ map (λ d. d.name) configs
              → collect_protocols configs ≡ ok rs)
          → collect_protocols (c ∷ configs) ≡ ok qs
      all_found [] e later = cc
      all_found (q ∷ qs) e later =
          let first : name q ≡ c.name = cc in
          let rest : map name qs ≡ map (λ d. d.name) configs = cc in
          rw (sym (ap protocol_of first) ∙ protocol_of-name q, later qs rest) refl

  -- The gateway is built with a list of protocols exactly when their names are the names of the
  -- enabled entries, in the same order; so an enabled entry with another name is an error.
  pub build_protocols_iff :
      (configs : List (ProtocolConfig V)) (ps : List Protocol)
      → (build_protocols configs ≡ ok ps)
        ↔ (map name ps ≡ map (λ c. c.name) (retain (λ c. c.enabled) configs))
  unfolding build_protocols
  build_protocols_iff configs ps = collect_protocols_iff (retain (λ c. c.enabled) configs) ps
