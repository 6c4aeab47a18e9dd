-- ===== src/Context/Store.antt =====
-- The arbiter, and the methods that change what it holds.
use gisland.Prelude.{
  leb, if◌then◌else◌, String_discrete, ℕ, ◌+◌, ◌%◌, ◌^◌, String, ite, Bool, true, false, not, ◌&&◌,
  ◌||◌, Option, none, some, List, [],
}
use gisland.Prelude.Maps.{keep_if, contains, erase, insert_or_assign}
use gisland.Context.Types.{ContextKey, PublishedContext, ContextKey_discrete}

-- `++sequence_` on `std::uint64_t`.
abbrev pub next_sequence : ℕ → ℕ
next_sequence n = (n + 1) % 2 ^ 64

module _ (S : Type 0) where
  pub record Entry : Type 0 where
    pub context : PublishedContext S
    pub sequence : ℕ

pub record Activation : Type 0 where
  pub key : ContextKey
  pub deadline : Option ℕ

pub record ContextArbiter (S : Type 0) : Type 0 where
  pub default_context : ContextKey
  pub compact_default : String
  pub expanded_default : String
  pub sequence : ℕ
  pub contexts : List (ContextKey × Entry S)
  pub activation : Option Activation
  pub activation_held : Bool

abbrev pub string_eq : String → String → Bool
string_eq a b = ite (String_discrete a b) true false

abbrev pub key_eq : ContextKey → ContextKey → Bool
key_eq a b = ite (ContextKey_discrete a b) true false

-- A time that is given and has come.
abbrev pub passed : Option ℕ → ℕ → Bool
passed none now = false
passed (some time) now = leb time now

-- Resets an activation that a test is true of.
abbrev pub reset_if : (Activation → Bool) → Option Activation → Option Activation
reset_if test none = none
reset_if test (some a) = if test a then none else some a

-- Whether the key of an activation is the expected one, if one is expected.
abbrev pub is_expected : Option ContextKey → Activation → Bool
is_expected none active = true
is_expected (some key) active = key_eq active.key key

abbrev pub holds : (Activation → Bool) → Option Activation → Bool
holds test none = false
holds test (some active) = test active

module _ {S : Type 0} where
  -- The two constructors.
  unfoldable pub make : ContextKey → ContextArbiter S
  make default_context = record {
    default_context = default_context;
    compact_default = default_context.instance_id;
    expanded_default = default_context.instance_id;
    sequence = 0;
    contexts = [];
    activation = none;
    activation_held = false;
  }

  unfoldable pub make_defaults : String → String → ContextArbiter S
  make_defaults compact_default expanded_default = record {
    default_context = record { instance_id = compact_default; context_id = "" };
    compact_default = compact_default;
    expanded_default = expanded_default;
    sequence = 0;
    contexts = [];
    activation = none;
    activation_held = false;
  }

  unfoldable pub dismiss : ContextArbiter S → ContextKey → ContextArbiter S
  dismiss a key = record a {
    contexts = erase ContextKey_discrete key a.contexts;
    activation = reset_if (λ active. key_eq active.key key) a.activation;
  }

  -- The new sequence number goes with the context.
  unfoldable pub publish : ContextArbiter S → PublishedContext S → ℕ → ContextArbiter S
  unfolding dismiss
  publish a context now =
      if passed context.expires_at now
      then dismiss a context.key
      else (let sequence = next_sequence a.sequence in
          record a {
            sequence = sequence;
            contexts =
                insert_or_assign ContextKey_discrete context.key
                  (record { context = context; sequence = sequence }) a.contexts;
          })

  unfoldable pub dismiss_instance : ContextArbiter S → String → ContextArbiter S
  dismiss_instance a instance_id = record a {
    contexts = keep_if (λ key _. not (string_eq key.instance_id instance_id)) a.contexts;
    activation = reset_if (λ active. string_eq active.key.instance_id instance_id) a.activation;
  }

  unfoldable pub set_default : ContextArbiter S → ContextKey → ContextArbiter S
  set_default a default_context = record a {
    default_context = default_context;
    compact_default = default_context.instance_id;
    expanded_default = default_context.instance_id;
  }

  unfoldable pub set_defaults : ContextArbiter S → String → String → ContextArbiter S
  set_defaults a compact_default expanded_default = record a {
    default_context = record { instance_id = compact_default; context_id = "" };
    compact_default = compact_default;
    expanded_default = expanded_default;
  }

  -- What `expire` keeps.
  abbrev pub is_live : ℕ → ContextKey → Entry S → Bool
  is_live now _ entry = not (passed entry.context.expires_at now)

  abbrev pub live : List (ContextKey × Entry S) → ℕ → List (ContextKey × Entry S)
  live contexts now = keep_if (is_live now) contexts

  unfoldable pub expire : ContextArbiter S → ℕ → ContextArbiter S
  expire a now = record a {
    contexts = live a.contexts now;
    activation =
        reset_if
          (λ active.
            not a.activation_held && passed active.deadline now
            || not (contains ContextKey_discrete active.key (live a.contexts now)))
          a.activation;
  }
