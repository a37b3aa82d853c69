-- ===== src/Auth.antt =====
-- src/auth.rs: the interceptor that puts the bearer token on every request. A request is its metadata
-- map; parsing a metadata value is the tonic crate's, a parameter.
use Prim.Native.String.{◌++◌ as str_append}
use eventfold_es.Prelude.{
  String, ◌≡◌, refl, false, Option, none, some, List, str_eq, inl, inr, Bool-cases, Option-cases,
  if◌then◌else◌,
}
use eventfold_es.Runtime.{Runtime, entry}
use eventfold_es.Map.{insert, entry-insert_self, entry-insert_other}

abbrev pub Metadata : Type 0
Metadata = List (String × String)

-- A lock is poisoned when a writer has panicked; its content is then not read.
pub record BearerInterceptor : Type 0 where
  pub token : Option String

pub data Intercepted (X : Runtime) : Type 0 where
  passed : Metadata → Intercepted X
  rejected : X.Status → Intercepted X
  panicked : Intercepted X

module _ (X : Runtime) (parse : String → Option String) where
  -- Interceptor::call
  unfoldable pub call : BearerInterceptor → Metadata → Intercepted X
  unfolding insert
  call i req = elim i.token [
    | none ↦ panicked
    | some token ↦
        if str_eq token "" then passed req else elim (parse (str_append "Bearer " token)) [
          | none ↦ rejected (X.internal "invalid token characters")
          | some value ↦ passed (insert "authorization" value req)
        ]
  ]

  -- A request that passes keeps every other metadata key, and its `authorization` is the bearer
  -- token's value, or what it was if the token is empty.
  pub call-passed :
      (token : String) (req out : Metadata)
      → call (record { token = some token }) req ≡ passed out
      → ((k : String) → str_eq "authorization" k ≡ false → entry k out ≡ entry k req)
        × (entry "authorization" out ≡ (
            if str_eq token ""
            then entry "authorization" req
            else parse (str_append "Bearer " token)))
  unfolding call
  call-passed token req out h = elim (Bool-cases (str_eq token "")) [
    | inl e ↦ let same : req ≡ out = cc (rw (e, call) at h) in rw (e, ← same) ((λ k ne. refl), refl)
    | inr e ↦ elim (Option-cases (parse (str_append "Bearer " token))) [
      | inl q ↦ cc (rw (e, q, call) at h)
      | inr (value, q) ↦
          let same : insert "authorization" value req ≡ out = cc (rw (e, q, call) at h) in
          rw (e, q, ← same)
            (
              (λ k ne. entry-insert_other "authorization" k value req ne),
              entry-insert_self "authorization" value req,
            )
    ]
  ]
