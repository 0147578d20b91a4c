-- ===== src/Startup/Options.antt =====
-- What the servers make of their options.
use smart_log.Base.{
  ℕ, ◌≤◌, ◌≡◌, refl, sym, ap, ◌∙◌, inl, inr, Option, none, some, List, [], ◌∷◌, ◌++◌, arith,
  if◌then◌else◌, Bool-cases, append-nil,
}
use smart_log.Slices.{
  Slice, Heap, nil_slice, empty_heap, append, contents, write, allocate, first_cells,
}
use smart_log.Slices.Kept.{Live, contents-append, append-Live, append_full}
use smart_log.Startup.{
  Flags, CertWatcher, TlsConfig, TlsOption, disable_http2, certificate_of, apply_option, tls_opts,
  with_certificate, server_opts,
}

module _ (grow : ℕ → ℕ → ℕ) where
  abbrev certificate : Option CertWatcher → List (Option TlsOption)
  certificate none = []
  certificate (some watcher) = some (certificate_of watcher) ∷ []

  abbrev protocols : Flags → List (Option TlsOption)
  protocols flags = if flags.enable_http2 then [] else some disable_http2 ∷ []

  with_certificate-contents :
      (slice : Slice) (watcher : Option CertWatcher) (h : Heap TlsOption)
      → contents (with_certificate grow slice watcher h).1 (with_certificate grow slice watcher h).0
        ≡ contents h slice ++ certificate watcher
  unfolding with_certificate
  with_certificate-contents slice none h = sym (append-nil (contents h slice))
  with_certificate-contents slice (some w) h = contents-append grow (certificate_of w) h slice

  with_certificate-Live :
      (slice : Slice) (watcher : Option CertWatcher) (h : Heap TlsOption)
      → Live h slice
      → Live (with_certificate grow slice watcher h).1 (with_certificate grow slice watcher h).0
  unfolding with_certificate
  with_certificate-Live slice none h live = live
  with_certificate-Live slice (some w) h live = append-Live grow (certificate_of w) h slice live

  with_certificate_full :
      (slice other : Slice) (watcher : Option CertWatcher) (h : Heap TlsOption)
      → slice.cap ≤ slice.len
      → Live h other
      → (contents (with_certificate grow slice watcher h).1 other ≡ contents h other)
        × Live (with_certificate grow slice watcher h).1 other
  unfolding with_certificate
  with_certificate_full slice other none h full live = (refl, live)
  with_certificate_full slice other (some w) h full live =
      append_full grow (certificate_of w) h slice other full live

  -- A new slice has no room left, as one function fills the array that the runtime allocates for it.
  tls_opts_full :
      (flags : Flags)
      → grow 0 1 ≤ 1
      → ((tls_opts grow flags).0.cap ≤ (tls_opts grow flags).0.len)
        × Live (tls_opts grow flags).1 (tls_opts grow flags).0
        × (contents (tls_opts grow flags).1 (tls_opts grow flags).0 ≡ protocols flags)
  unfolding tls_opts append write allocate contents first_cells nil_slice empty_heap
  tls_opts_full flags one = elim (Bool-cases flags.enable_http2) [
    | inl e ↦ rw e (omega arith, inl (refl, refl), refl)
    | inr e ↦ rw e (one, inr (omega arith), refl)
  ]

  server_opts-contents :
      (flags : Flags) (webhook metrics : Option CertWatcher)
      → grow 0 1 ≤ 1
      → let (webhook_opts, metrics_opts, h) = server_opts grow flags webhook metrics in
        (contents h webhook_opts ≡ protocols flags ++ certificate webhook)
        × (contents h metrics_opts ≡ protocols flags ++ certificate metrics)
  unfolding server_opts
  server_opts-contents flags webhook metrics one =
      let (full, live, start) = tls_opts_full flags one in
      let (opts, h₀) = tls_opts grow flags in
      let out = with_certificate grow opts webhook h₀ in
      let live_out = with_certificate-Live opts webhook h₀ live in
      (
        (with_certificate_full opts out.0 metrics out.1 full live_out).0
            ∙ with_certificate-contents opts webhook h₀
            ∙ ap (λ l. l ++ certificate webhook) start,
        with_certificate-contents opts metrics out.1
            ∙ ap (λ l. l ++ certificate metrics)
                ((with_certificate_full opts opts webhook h₀ full live).0 ∙ start),
      )

  -- A server applies its options in their order; a cell without a function would stop it.
  abbrev pub configured : List (Option TlsOption) → TlsConfig → Option TlsConfig
  configured [] config = some config
  configured (none ∷ rest) config = none
  configured (some option ∷ rest) config = configured rest (apply_option option config)

  -- What the flags and a watcher ask for.
  abbrev pub own_config : Flags → Option CertWatcher → TlsConfig → TlsConfig
  own_config flags watcher config = record {
    next_protos = if flags.enable_http2 then config.next_protos else "http/1.1" ∷ [];
    get_certificate = elim watcher [ none ↦ config.get_certificate | some w ↦ some w ];
  }

  configured-own_config :
      (flags : Flags) (watcher : Option CertWatcher) (config : TlsConfig)
      → configured (protocols flags ++ certificate watcher) config
        ≡ some (own_config flags watcher config)
  unfolding apply_option
  configured-own_config flags none config = elim (Bool-cases flags.enable_http2) [
    | inl e ↦ rw e refl
    | inr e ↦ rw e refl
  ]
  configured-own_config flags (some w) config = elim (Bool-cases flags.enable_http2) [
    | inl e ↦ rw e refl
    | inr e ↦ rw e refl
  ]

  -- Though the slices of the two servers start from one, each server's configuration gets the
  -- certificate of its own watcher, if it has one, and offers only http/1.1 unless HTTP/2 is enabled,
  -- when the runtime's first array for one function has no room for a second.
  pub server_opts-own_config :
      (flags : Flags) (webhook metrics : Option CertWatcher) (config : TlsConfig)
      → grow 0 1 ≤ 1
      → let (webhook_opts, metrics_opts, h) = server_opts grow flags webhook metrics in
        (configured (contents h webhook_opts) config ≡ some (own_config flags webhook config))
        × (configured (contents h metrics_opts) config ≡ some (own_config flags metrics config))
  server_opts-own_config flags webhook metrics config one =
      let (webhook_eq, metrics_eq) = server_opts-contents flags webhook metrics one in
      (
        ap (λ l. configured l config) webhook_eq ∙ configured-own_config flags webhook config,
        ap (λ l. configured l config) metrics_eq ∙ configured-own_config flags metrics config,
      )
