-- ===== src/Http/ReloadLaws.antt =====
-- What /-/reload answers, and which passwords the exporter has behind it.
use redis_exporter.Base.{
  ◌≡◌, ◌≢◌, ◌⊎◌, inl, inr, refl, ap, ◌∙◌, Option, none, some, [], Bytes, bytes_eq, bytes_eq_iff,
  bytes_eq-nil_ne, Assoc, Bool-cases, Option-cases,
}
use redis_exporter.Base.Chain.{◌>>=◌}
use redis_exporter.Options.{Exporter}
use redis_exporter.Http.Handlers.{
  Reload, no_file, failed, reloaded, load_pwd_file, reload_pwd_file, with_passwords,
}

module _ (read_file : Bytes → Option Bytes) (unmarshal : Bytes → Option (Assoc Bytes)) where
  -- No file is configured.
  abbrev pub HasNoFile : Exporter → Type 0
  HasNoFile e = e.options.redis_pwd_file ≡ []

  -- The file that is configured cannot be read, or it is no map from addresses to passwords.
  abbrev pub HasBadFile : Exporter → Type 0
  HasBadFile e =
      (e.options.redis_pwd_file ≢ [])
      × ((read_file e.options.redis_pwd_file ≡ none)
          ⊎ ((text : Bytes) × (read_file e.options.redis_pwd_file ≡ some text)
              × (unmarshal text ≡ none)))

  -- The file that is configured holds these passwords.
  abbrev pub HasFile : Exporter → Assoc Bytes → Type 0
  HasFile e passwords =
      (e.options.redis_pwd_file ≢ [])
      × ((text : Bytes) × (read_file e.options.redis_pwd_file ≡ some text)
          × (unmarshal text ≡ some passwords))

  reply_of_file :
      (e : Exporter) (loaded : Option (Assoc Bytes))
      → e.options.redis_pwd_file ≢ []
      → load_pwd_file read_file unmarshal e.options.redis_pwd_file ≡ loaded
      → reload_pwd_file read_file unmarshal e ≡ elim loaded [
        | none ↦ (failed, e)
        | some passwords ↦ (reloaded, with_passwords read_file unmarshal e passwords)
      ]
  unfolding reload_pwd_file
  reply_of_file e loaded there found =
      rw (bytes_eq-nil_ne e.options.redis_pwd_file there, reload_pwd_file)
        (ap
          (λ x. elim x as (λ _. Reload × Exporter) [
            | none ↦ (failed, e)
            | some passwords ↦ (reloaded, with_passwords read_file unmarshal e passwords)
          ])
          found)

  loads_text :
      (file : Bytes) (text : Bytes)
      → read_file file ≡ some text
      → load_pwd_file read_file unmarshal file ≡ unmarshal text
  unfolding load_pwd_file
  loads_text file text found = ap (λ x. x >>= unmarshal) found

  loads_nothing :
      (file : Bytes) → read_file file ≡ none → load_pwd_file read_file unmarshal file ≡ none
  unfolding load_pwd_file
  loads_nothing file lost = ap (λ x. x >>= unmarshal) lost

  without_file : (e : Exporter) → HasNoFile e → reload_pwd_file read_file unmarshal e ≡ (no_file, e)
  unfolding reload_pwd_file
  without_file e empty =
      rw ((bytes_eq_iff e.options.redis_pwd_file []).1 empty, reload_pwd_file) refl

  with_bad_file :
      (e : Exporter) → HasBadFile e → reload_pwd_file read_file unmarshal e ≡ (failed, e)
  with_bad_file e (there, inl lost) =
      reply_of_file e none there (loads_nothing e.options.redis_pwd_file lost)
  with_bad_file e (there, inr (text, found, bad)) =
      reply_of_file e none there (loads_text e.options.redis_pwd_file text found ∙ bad)

  with_file :
      (e : Exporter) (passwords : Assoc Bytes)
      → HasFile e passwords
      → reload_pwd_file read_file unmarshal e
        ≡ (reloaded, record e { options = record e.options { password_map = passwords } })
  with_file e passwords (there, (text, found, good)) =
      reply_of_file e (some passwords) there (loads_text e.options.redis_pwd_file text found ∙ good)

  -- What /-/reload does in each case. Without a configured password file it answers 400, and with a
  -- file that cannot be read or parsed 500, and the exporter is as it was. With a file that holds a
  -- map it answers 200, and the password map of the exporter is that of the file, whatever it was
  -- before; nothing else of the exporter changes. One of the three is the case.
  pub reload_pwd_file-passwords :
      (e : Exporter)
      → (HasNoFile e × (reload_pwd_file read_file unmarshal e ≡ (no_file, e)))
        ⊎ ((HasBadFile e × (reload_pwd_file read_file unmarshal e ≡ (failed, e)))
            ⊎ ((passwords : Assoc Bytes) × HasFile e passwords
                × (reload_pwd_file read_file unmarshal e ≡ (
                  reloaded,
                  record e { options = record e.options { password_map = passwords } },
                ))))
  reload_pwd_file-passwords e = elim (Bool-cases (bytes_eq e.options.redis_pwd_file [])) [
    | inl same ↦
        let empty = (bytes_eq_iff e.options.redis_pwd_file []).0 same in
        inl (empty, without_file e empty)
    | inr differ ↦
        let there : e.options.redis_pwd_file ≢ [] =
          (λ empty. absurd (cc (differ, (bytes_eq_iff e.options.redis_pwd_file []).1 empty))) in
        inr (elim (Option-cases (read_file e.options.redis_pwd_file)) [
          | inl lost ↦ inl ((there, inl lost), with_bad_file e (there, inl lost))
          | inr (text, found) ↦ elim (Option-cases (unmarshal text)) [
            | inl bad ↦
                inl
                  ((there, inr (text, found, bad)), with_bad_file e (there, inr (text, found, bad)))
            | inr (passwords, good) ↦ inr (
              passwords,
              (there, (text, found, good)),
              with_file e passwords (there, (text, found, good)),
            )
          ]
        ])
  ]
