-- ===== src/Secrets.antt =====
-- References to secrets, as the reconcilers validate them and the senders read them.
use smart_log.Base.{String, ◌≡◌, some}
use smart_log.Base.Dict
use smart_log.Errors.{Result, ok}
use smart_log.Api.{NamespacedName, SecretKeySelector, Secret}

-- A read of a secret, `Get(ctx, key, &secret)`, at the server's present state.
abbrev pub GetSecret : Type 0
GetSecret = NamespacedName → Result Secret

-- The name of a referenced secret, in the namespace of what refers to it.
abbrev pub secret_key : String → SecretKeySelector → NamespacedName
secret_key namespace selector = record { name = selector.name; namespace = namespace }

-- The secret of the reference exists and has the key.
abbrev pub HasKey : GetSecret → String → SecretKeySelector → Type 0
HasKey get namespace selector =
    (secret : Secret) × (get (secret_key namespace selector) ≡ ok secret)
    × ((value : String) × (Dict.lookup selector.key secret.entries ≡ some value))
