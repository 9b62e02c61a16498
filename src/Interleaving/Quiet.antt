-- ===== src/Interleaving/Quiet.antt =====
-- The handlers that send no request (account-aggregator/src and financial-information-user/src, main.py
-- and controller.py): they use no answer, and nothing waits after them that did not before.
use fiu_data_governance.Prelude.{◌≡◌, refl, ap, ◌∙◌, String}
use fiu_data_governance.Host.{Host, Action, Sys, pure, raise, lift, reads, gets, modify, ask, ◌>>=◌}
use fiu_data_governance.Python.Errors.{Exn, Result, ok, err}
use fiu_data_governance.Python.Json.{Json}
use fiu_data_governance.Interleaving.Replay.{Answered, replay}
use fiu_data_governance.Aggregator.Consent.{
  handle_consent, store_consent, handle_consent_handle, get_consent_artifact,
}
use fiu_data_governance.Aggregator.Session.{handle_fi_fetch}
use fiu_data_governance.Aggregator.Routes as AaRoutes
use fiu_data_governance.FinancialUser.Handlers.{configure_bre_info}
use fiu_data_governance.FinancialUser.Routes as FiuRoutes
use fiu_data_governance.Interleaving.Services.{AaCalls, FiuCalls}

pub record Quiet {S W A : Type 0} (m : Action S (Answered W) A) : Type 0 where
  pub at : (s : Sys S (Answered W)) → (m s).1.world ≡ record s.world { inner = (m s).1.world.inner }

-- Where nothing waits, nothing does after it.
pub waiting-Quiet :
    {S W A : Type 0} (m : Action S (Answered W) A) (s : Sys S (Answered W))
    → Quiet m
    → (m s).1.world.waiting ≡ s.world.waiting
waiting-Quiet m s q = ap (λ w. w.waiting) (q.at s)

module _ {S W A : Type 0} where
  Quiet-pure : (a : A) → Quiet {S = S} {W = W} (pure a)
  unfolding pure
  Quiet-pure a = record { at = λ s. refl }

  Quiet-raise : (e : Exn) → Quiet {S = S} {W = W} {A = A} (raise e)
  unfolding raise
  Quiet-raise e = record { at = λ s. refl }

  Quiet-lift : (r : Result A) → Quiet {S = S} {W = W} (lift r)
  unfolding lift
  Quiet-lift r = record { at = λ s. refl }

  Quiet-reads : (f : S → Result A) → Quiet {S = S} {W = W} (reads f)
  unfolding reads
  Quiet-reads f = record { at = λ s. refl }

  Quiet-gets : (f : S → A) → Quiet {S = S} {W = W} (gets f)
  unfolding gets
  Quiet-gets f = record { at = λ s. refl }

module _ {S W : Type 0} where
  Quiet-modify : (f : S → S) → Quiet {S = S} {W = W} (modify f)
  unfolding modify
  Quiet-modify f = record { at = λ s. refl }

  Quiet-now : (host : Host W) → Quiet {S = S} (ask (replay host).now)
  unfolding ask
  Quiet-now host = record { at = λ s. refl }

  Quiet-uuid4 : (host : Host W) → Quiet {S = S} (ask (replay host).uuid4)
  unfolding ask
  Quiet-uuid4 host = record { at = λ s. refl }

module _ {S W A B : Type 0} where
  resume-Quiet :
      (r : Result A) (m : Action S (Answered W) A) (f : A → Action S (Answered W) B)
      (s : Sys S (Answered W))
      → Quiet m
      → ((a : A) → Quiet (f a))
      → (m s).0 ≡ r
      → ((m >>= f) s).1.world ≡ record s.world { inner = ((m >>= f) s).1.world.inner }
  unfolding ◌>>=◌
  resume-Quiet (ok a) m f s q k e = rw e (
      (k a).at (m s).1
      ∙ ap {A = Answered W} (λ w. record w { inner = (f a (m s).1).1.world.inner }) (q.at s))
  resume-Quiet (err x) m f s q k e = rw e (q.at s)

  Quiet-bind :
      (m : Action S (Answered W) A) (f : A → Action S (Answered W) B)
      → Quiet m
      → ((a : A) → Quiet (f a))
      → Quiet (m >>= f)
  Quiet-bind m f q k = record { at = λ s. resume-Quiet (m s).0 m f s q k refl }

ruleset quiet_rules = (
  Quiet-pure, Quiet-raise, Quiet-lift, Quiet-reads, Quiet-gets, Quiet-modify, Quiet-now,
  Quiet-uuid4, Quiet-bind,
)

module _ {W : Type 0} (host : Host W) where
  handle_consent-Quiet :
      (h : String) (request : Json) → Quiet (handle_consent (replay host) h request)
  unfolding handle_consent store_consent
  handle_consent-Quiet h request = search quiet_rules depth 20

  pub aa-Quiet : (e : AaRoutes.Event) → ¬ AaCalls e → Quiet (AaRoutes.handle_event (replay host) e)
  unfolding AaRoutes.handle_event AaRoutes.setup_statements AaRoutes.process_consent
      AaRoutes.process_fi_request handle_consent_handle get_consent_artifact handle_fi_fetch
  aa-Quiet (AaRoutes.post_cr_info request) h = absurd (h tt)
  aa-Quiet (AaRoutes.run_task n) h = absurd (h tt)
  aa-Quiet (AaRoutes.post_statements statements) h = search quiet_rules depth 20
  aa-Quiet (AaRoutes.post_consent request) h = search (quiet_rules, handle_consent-Quiet) depth 20
  aa-Quiet (AaRoutes.post_fi_request request) h = search quiet_rules depth 20
  aa-Quiet (AaRoutes.get_consent_handle h') h = search quiet_rules depth 20
  aa-Quiet (AaRoutes.get_consent i) h = search quiet_rules
  aa-Quiet (AaRoutes.fetch k) h = search quiet_rules

  pub fiu-Quiet :
      (e : FiuRoutes.Event) → ¬ FiuCalls e → Quiet (FiuRoutes.handle_event (replay host) e)
  unfolding FiuRoutes.handle_event FiuRoutes.setup_bre_url FiuRoutes.process_request
      configure_bre_info FiuRoutes.process_consent_notification FiuRoutes.process_fi_notification
  fiu-Quiet (FiuRoutes.run_task n) h = absurd (h tt)
  fiu-Quiet (FiuRoutes.post_bre_info request) h = search quiet_rules depth 20
  fiu-Quiet (FiuRoutes.post_request request) h = search quiet_rules depth 20
  fiu-Quiet (FiuRoutes.post_consent_notification request) h = search quiet_rules depth 20
  fiu-Quiet (FiuRoutes.post_fi_notification request) h = search quiet_rules depth 20
