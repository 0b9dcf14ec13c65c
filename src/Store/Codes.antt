-- ===== src/Store/Codes.antt =====
-- The response codes (api/app/core/codes.py) that the modelled services raise, the business
-- exception (api/app/core/exceptions.py) and the enumerations of api/app/core/enums.py.
use mathlib.Core.Bool.{Bool, true, false}
use mathlib.Core.Option.{Option, none, some}
use pressure_platform.Prelude.Text.{Text, codes, or_else}

pub data Code : Type 0 where
  fail param_wrong jmx_not_exist file_not_exist testcase_not_exist : Code
  report_not_exist node_cannot_connect testcase_is_running testcase_is_not_running : Code
  stress_result scheduled_task_not_exist param_missing user_not_exist : Code
  user_password_error user_not_login user_token_expire user_password_too_weak : Code

-- `Code.message`
unfoldable pub code_message : Code → Text
code_message Code.fail = codes "业务异常"
code_message Code.param_wrong = codes "参数不正确"
code_message Code.jmx_not_exist = codes "JMX脚本不存在"
code_message Code.file_not_exist = codes "文件不存在"
code_message Code.testcase_not_exist = codes "用例不存在"
code_message Code.report_not_exist = codes "报告不存在"
code_message Code.node_cannot_connect = codes "节点无法连通"
code_message Code.testcase_is_running = codes "测试用例正在执行中"
code_message Code.testcase_is_not_running = codes "用例此刻并不在执行, 无法停止"
code_message Code.stress_result = codes "请根据[日志]和[预览]了解压测详情"
code_message Code.scheduled_task_not_exist = codes "定时任务不存在"
code_message Code.param_missing = codes "参数缺失"
code_message Code.user_not_exist = codes "用户不存在"
code_message Code.user_password_error = codes "用户密码错误"
code_message Code.user_not_login = codes "用户未登录"
code_message Code.user_token_expire = codes "用户凭证失效"
code_message Code.user_password_too_weak = codes "密码强度不足"

-- What a call may raise: a `MysteriousException` with its override message, the `RuntimeError` of
-- the lease service, or any other exception, known by its text.
pub data Error : Type 0 where
  mysterious : Code → Option Text → Error
  runtime_error : Text → Error
  other : Text → Error

-- `e.override_message or e.code.message`
unfoldable pub shown_message : Code → Option Text → Text
shown_message c none = code_message c
shown_message c (some m) = or_else m (code_message c)

pub data TestCaseStatus : Type 0 where
  not_run run_ing run_success run_failed run_waiting wait_cancel : TestCaseStatus

pub data NodeStatus : Type 0 where
  disabled enable failed : NodeStatus

pub data NodeType : Type 0 where
  slave master : NodeType

-- `status == TestCaseStatus.RUN_ING.value`, and so on.
abbrev pub is_run_ing : TestCaseStatus → Bool
is_run_ing TestCaseStatus.run_ing = true
is_run_ing _ = false

abbrev pub is_run_success : TestCaseStatus → Bool
is_run_success TestCaseStatus.run_success = true
is_run_success _ = false

abbrev pub is_run_waiting : TestCaseStatus → Bool
is_run_waiting TestCaseStatus.run_waiting = true
is_run_waiting _ = false

abbrev pub is_wait_cancel : TestCaseStatus → Bool
is_wait_cancel TestCaseStatus.wait_cancel = true
is_wait_cancel _ = false
