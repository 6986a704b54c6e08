-- ===== src/Tests/Errors.antt =====
-- The text of the last error at concrete inputs.
use openport_j.Base.{◌≡◌, refl, codes, arith}
use openport_j.Codes.{err_timeout}
use openport_j.Proto.Print.{decimal, digits_before}
use openport_j.Api.Errors.{
  op_err_set, op_err_get, op_err_name, case_of, told, fail, failed, pass_thru_get_last_error,
}
use openport_j.Api.Errors.Names.{last_error, last_error-TellsCode}

last_error-TellsCode_example : err_timeout ≡ err_timeout
last_error-TellsCode_example =
    last_error-TellsCode (codes "PassThruReadMsgs") err_timeout err_timeout (omega arith)
      (omega arith, omega arith) (omega arith, omega arith) refl

text_of_timeout :
    last_error (codes "PassThruReadMsgs") err_timeout ≡ codes "PassThruReadMsgs: ERR_TIMEOUT"
unfolding failed fail op_err_set op_err_get op_err_name told case_of pass_thru_get_last_error
text_of_timeout = refl

text_of_unknown_code : last_error (codes "PassThruIoctl") 99 ≡ codes "PassThruIoctl: error 99"
unfolding failed fail op_err_set op_err_get op_err_name told case_of pass_thru_get_last_error
    decimal digits_before
text_of_unknown_code = refl

-- A reason set deeper down stays.
reason_is_kept :
    (failed (codes "no answer from the ECU") 7 (codes "PassThruIoctl")).0
    ≡ codes "no answer from the ECU"
unfolding failed fail
reason_is_kept = refl
