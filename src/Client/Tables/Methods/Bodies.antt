-- ===== src/Client/Tables/Methods/Bodies.antt =====
-- Every call of the user meets the contract.
use mqttie.Prelude.{ℕ, List}
use mqttie.Client.Actions.{Op, offer}
use mqttie.Client.Prog.{Prog}
use mqttie.Client.System.{Call, body, forget}
use mqttie.Client.System
use mqttie.Client.Logic.{Meets, Any, Meets->>=, Meets-weaken}
use mqttie.Client.Tables.{contract, caller_contract, CallerNeeds, Needs}
use mqttie.Client.Tables.Methods.{connect-Meets, disconnect-Meets, ping-Meets, publish-Meets}
use mqttie.Client.Tables.Methods.Subscriptions.{subscribe-Meets, unsubscribe-Meets}

module _ (v : ℕ) where
  forget-Meets :
      {A : Type 0} (m : Prog A)
      → Meets (caller_contract v) Any m
      → Meets (caller_contract v) Any (forget m)
  forget-Meets m h = Meets->>= (caller_contract v) Any Any m _ h λ a r. tt

  pub body-caller_contract : (id : List ℕ) (m : Call) → Meets (caller_contract v) Any (body v id m)
  unfolding body
  body-caller_contract id (System.connect options) = forget-Meets _ (connect-Meets v id options)
  body-caller_contract id System.disconnect = forget-Meets _ (disconnect-Meets v)
  body-caller_contract id System.ping = forget-Meets _ (ping-Meets v)
  body-caller_contract id (System.publish topic payload options) =
      forget-Meets _ (publish-Meets v topic payload options)
  body-caller_contract id (System.subscribe topics) = forget-Meets _ (subscribe-Meets v topics)
  body-caller_contract id (System.unsubscribe names) = forget-Meets _ (unsubscribe-Meets v names)

  CallerNeeds-Needs : (o : Op) → CallerNeeds v o → Needs v o
  CallerNeeds-Needs (offer c p) h = elim h [ ]
  CallerNeeds-Needs o h = h

  pub body-Meets : (id : List ℕ) (m : Call) → Meets (contract v) Any (body v id m)
  body-Meets id m =
      Meets-weaken (caller_contract v) (contract v) Any (body v id m) CallerNeeds-Needs
        (λ o a g. tt) (body-caller_contract id m)
