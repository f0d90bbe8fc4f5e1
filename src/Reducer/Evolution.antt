-- ===== src/Reducer/Evolution.antt =====
-- What every operation of reducer.rs keeps of a record, in one relation for its owner.
use smb_rs.Prelude.{◌≡◌, refl, ◌∙◌, true, arith}
use smb_rs.Reducer.{
  RequestRecord, RequestEvent, TerminalOutcome, terminal, committed, is_final, reduce,
  publish_terminal, observe_response_commitment,
}
use smb_rs.Reducer.Wire.{IsSound, reduce-IsSound}

pub record Evolves (l l' : RequestRecord) : Type 0 where
  pub same_key : l'.key ≡ l.key
  pub stays_committed : committed l.send ≡ true → committed l'.send ≡ true
  pub stays_final : is_final l.progress ≡ true → is_final l'.progress ≡ true
  pub stays_told : (o : TerminalOutcome) → l.caller ≡ terminal o → l'.caller ≡ terminal o
  pub stays_sound : IsSound l → IsSound l'

pub Evolves-refl : (l : RequestRecord) → Evolves l l
Evolves-refl l = record {
  same_key = refl;
  stays_committed = λ h. h;
  stays_final = λ h. h;
  stays_told = λ o h. h;
  stays_sound = λ h. h;
}

pub Evolves-trans : (l m n : RequestRecord) → Evolves l m → Evolves m n → Evolves l n
Evolves-trans l m n p q = record {
  same_key = q.same_key ∙ p.same_key;
  stays_committed = λ h. q.stays_committed (p.stays_committed h);
  stays_final = λ h. q.stays_final (p.stays_final h);
  stays_told = λ o h. q.stays_told o (p.stays_told o h);
  stays_sound = λ h. q.stays_sound (p.stays_sound h);
}

pub reduce-Evolves : (l : RequestRecord) (e : RequestEvent) → Evolves l (reduce l e).0
unfolding reduce
reduce-Evolves l e = record {
  same_key = ground arith;
  stays_committed = ground arith;
  stays_final = ground arith;
  stays_told = λ o h. ground arith;
  stays_sound = λ h. reduce-IsSound l e h;
}

pub publish_terminal-Evolves :
    (l : RequestRecord) (o : TerminalOutcome) → Evolves l (publish_terminal l o).0
unfolding publish_terminal
publish_terminal-Evolves l o = record {
  same_key = ground arith;
  stays_committed = ground arith;
  stays_final = ground arith;
  stays_told = λ o' h. ground arith;
  stays_sound = λ h. ground arith;
}

pub observe_response_commitment-Evolves :
    (l : RequestRecord) → Evolves l (observe_response_commitment l)
unfolding observe_response_commitment
observe_response_commitment-Evolves l = record {
  same_key = ground arith;
  stays_committed = ground arith;
  stays_final = ground arith;
  stays_told = λ o' h. ground arith;
  stays_sound = λ h. ground arith;
}
