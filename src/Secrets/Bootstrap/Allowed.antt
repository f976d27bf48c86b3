-- ===== src/Secrets/Bootstrap/Allowed.antt =====
-- Which providers a process can start with.
use deal_screening_agent.Prelude.{
  or_default, Bool-cases, ◌≡◌, refl, subst, inl, inr, Bool, true, false, Option, some, arith,
}
use deal_screening_agent.Prelude.Exec.{Result, ok, err}
use deal_screening_agent.Prelude.Results.{Ensures, Ensures-bind, Ensures-any}
use deal_screening_agent.Prelude.Dict.{Dict}
use deal_screening_agent.Secrets.{
  Environment, dev, staging, prod, test, SecretsProvider, aws_secrets_manager, flyio_secrets,
  env_file, memory, is_valid_provider, SecretsError, SecretValue,
}
use deal_screening_agent.Secrets.Redaction.{Strings}
use deal_screening_agent.Secrets.Bootstrap.{
  Variables, ProviderKind, env_file_provider, memory_provider, kms_named, resolve_provider,
  resolve_kms, name_of, Choice, env_of, choose, Process, fresh_process, finish, bootstrap, shutdown,
}

-- which environments can run on which provider: the .env file anywhere but in staging, the dict of
-- the tests in tests
abbrev pub serves : Environment → ProviderKind → Bool
serves dev env_file_provider = true
serves prod env_file_provider = true
serves test env_file_provider = true
serves test memory_provider = true
serves _ _ = false

resolve_provider-serves :
    (env : Environment) (name : SecretsProvider)
    → Ensures (λ p. serves env p ≡ true) (resolve_provider env name)
unfolding resolve_provider is_valid_provider
resolve_provider-serves prod aws_secrets_manager = tt
resolve_provider-serves prod flyio_secrets = tt
resolve_provider-serves prod env_file = refl
resolve_provider-serves prod memory = tt
resolve_provider-serves staging aws_secrets_manager = tt
resolve_provider-serves staging flyio_secrets = tt
resolve_provider-serves staging env_file = tt
resolve_provider-serves staging memory = tt
resolve_provider-serves dev aws_secrets_manager = tt
resolve_provider-serves dev flyio_secrets = tt
resolve_provider-serves dev env_file = refl
resolve_provider-serves dev memory = tt
resolve_provider-serves test aws_secrets_manager = tt
resolve_provider-serves test flyio_secrets = tt
resolve_provider-serves test env_file = refl
resolve_provider-serves test memory = refl

abbrev pub Serves : Choice → Type 0
Serves c = serves c.env c.provider ≡ true

choose-Serves :
    (config_override : Option Environment) (vars : Variables)
    → Ensures Serves (choose false config_override vars)
unfolding choose
choose-Serves config_override vars =
    Ensures-bind (λ e. Unit) Serves (env_of config_override vars) _
      (Ensures-any (env_of config_override vars))
      λ env _.
        Ensures-bind (λ n. Unit) Serves (name_of env (or_default vars.secrets_provider "")) _
          (Ensures-any (name_of env (or_default vars.secrets_provider "")))
          λ name _.
            Ensures-bind (λ p. serves env p ≡ true) Serves (resolve_provider env name) _
              (resolve_provider-serves env name)
              λ provider s.
                Ensures-bind (λ k. Unit) Serves (kms_named (or_default vars.kms_provider "none")) _
                  (Ensures-any (kms_named (or_default vars.kms_provider "none")))
                  λ kms_type _.
                    Ensures-bind (λ k. Unit) Serves (resolve_kms kms_type) _
                      (Ensures-any (resolve_kms kms_type)) λ kms _. s

module _ (str : Strings) (load_all : ProviderKind → Dict SecretValue) where
  -- The states of a process that starts from nothing, by bootstraps without an injected provider
  -- that go through, and shutdowns.
  pub data Life : Process → Type 0 where
    begins : Life fresh_process
    starts :
        {p q : Process} (config_override : Option Environment) (vars : Variables)
        → Life p
        → bootstrap str load_all false config_override vars p ≡ ok q
        → Life q
    stops : {p : Process} → Life p → Life (shutdown p)

  -- a process that runs on an allowed provider
  abbrev pub RunsOnAllowed : Process → Type 0
  RunsOnAllowed p = (c : Choice) × (p.choice ≡ some c) × Serves c

  finish-RunsOnAllowed :
      (p q : Process) (r : Result SecretsError Choice)
      → Ensures Serves r
      → finish str load_all p r ≡ ok q
      → RunsOnAllowed q
  finish-RunsOnAllowed p q (err e) s h = absurd (ground arith)
  finish-RunsOnAllowed p q (ok c) s h = (c, ground arith, s)

  starts-RunsOnAllowed :
      (p q : Process) (config_override : Option Environment) (vars : Variables)
      → (p.bootstrapped ≡ true → RunsOnAllowed p)
      → bootstrap str load_all false config_override vars p ≡ ok q
      → RunsOnAllowed q
  unfolding bootstrap
  starts-RunsOnAllowed p q config_override vars before h = elim (Bool-cases p.bootstrapped) [
    | inl e ↦ let same : p ≡ q = ground arith in subst RunsOnAllowed same (before e)
    | inr e ↦
        finish-RunsOnAllowed p q (choose false config_override vars)
          (choose-Serves config_override vars) (rw e at h)
  ]

  Life-RunsOnAllowed : {p : Process} → Life p → p.bootstrapped ≡ true → RunsOnAllowed p
  unfolding shutdown
  Life-RunsOnAllowed begins b = absurd (ground arith)
  Life-RunsOnAllowed (stops l) b = absurd (ground arith)
  Life-RunsOnAllowed (starts config_override vars l h) b =
      starts-RunsOnAllowed _ _ config_override vars (Life-RunsOnAllowed l) h

  -- Whatever bootstraps without an injected provider and shutdowns a process has gone through,
  -- while it is bootstrapped it runs on the .env file, and not in staging, or on the dict of the
  -- tests in the test environment, and a further bootstrap returns and changes nothing. Production
  -- on the .env file is among what the code allows.
  pub bootstrap-IsStarted :
      {p : Process}
      → Life p
      → p.bootstrapped ≡ true
      → (overridden : Bool) (config : Option Environment) (vars : Variables)
      → RunsOnAllowed p × (bootstrap str load_all overridden config vars p ≡ ok p)
  unfolding bootstrap
  bootstrap-IsStarted l b overridden config vars = (Life-RunsOnAllowed l b, rw b refl)
