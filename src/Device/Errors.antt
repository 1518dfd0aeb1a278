-- ===== src/Device/Errors.antt =====
-- How a result of libaudiowire becomes a Rust result.
use audiowire.Base.{
  ◌≡◌, ◌⊎◌, inl, inr, arith, true, Option, String, ok, err, refl, ℤ, pos, negsuc, zero, suc,
}
use audiowire.Device.{AwResult, is_ok, is_err, parse_result_lazy}

-- Every result is one of two: code zero gives `Ok` of the closure's value, any other code gives `Err`
-- with that code and its message, and the closure's value is not used.
pub parse_result_lazy_cases :
    {T : Type 0} (r : AwResult) (f : Unit {0} → T)
    → ((is_ok r ≡ true) × (parse_result_lazy r f ≡ ok (f tt)))
      ⊎ ((is_err r ≡ true)
          × (parse_result_lazy r f ≡ err (record { code = r.code; message = r.message })))
unfolding parse_result_lazy is_ok is_err
parse_result_lazy_cases r f = go r.code r.message
  where
    go :
        (c : ℤ) (m : Option String)
        → let r : AwResult = record { code = c; message = m } in
          ((is_ok r ≡ true) × (parse_result_lazy r f ≡ ok (f tt)))
          ⊎ ((is_err r ≡ true) × (parse_result_lazy r f ≡ err (record { code = c; message = m })))
    go (pos zero) m = inl (refl, refl)
    go (pos (suc n)) m = inr (ground arith)
    go (negsuc n) m = inr (refl, refl)
