-- ===== src/Services.antt =====
-- The list of services: ProcessMangerAlpha/CServListDialog.cpp. What the service manager reports,
-- and whether it does what it is asked, are parameters.
pub mod Menu
use process_manger_alpha.Base.{
  ℕ, zero, suc, Bool, true, false, ◌||◌, ◌==◌, if◌then◌else◌, List, [], ◌∷◌, list_eq,
}
use process_manger_alpha.Text.{Text, codes}
use process_manger_alpha.ListView.{ListView}
use process_manger_alpha.ListView.Fill.{fill_rows}

-- An entry of EnumServicesStatusEx, with what QueryServiceConfig says of the service.
pub record Service : Type 0 where
  pub name : Text
  pub state : ℕ
  pub kind : ℕ
  pub start : ℕ
  pub path : Text

-- SERVICE_STOPPED to SERVICE_PAUSED are 1 to 7 in winsvc.h; a state that is none has an empty text.
unfoldable pub status_text : ℕ → Text
status_text s =
    if s == 5
    then codes "继续等待"
    else if s == 6
    then codes "暂停等待"
    else if s == 7
    then codes "已暂停"
    else if s == 4
    then codes "运行中"
    else if s == 2
    then codes "开始等待"
    else if s == 3
    then codes "停止等待"
    else if s == 1
    then codes "已停止"
    else []

-- SERVICE_FILE_SYSTEM_DRIVER, SERVICE_KERNEL_DRIVER, SERVICE_WIN32_OWN_PROCESS and
-- SERVICE_WIN32_SHARE_PROCESS of winnt.h.
unfoldable pub type_text : ℕ → Text
type_text t =
    if t == 2
    then codes "文件系统驱动服务"
    else if t == 1
    then codes "内核驱动服务"
    else if t == 16
    then codes "独立进程服务"
    else if t == 32
    then codes "共享进程服务"
    else []

-- SERVICE_AUTO_START, SERVICE_BOOT_START, SERVICE_DEMAND_START, SERVICE_DISABLED and
-- SERVICE_SYSTEM_START of winnt.h.
unfoldable pub start_type_text : ℕ → Text
start_type_text s =
    if s == 2
    then codes "系统自启动"
    else if s == 0
    then codes "系统加载自启动"
    else if s == 3
    then codes "需求启动"
    else if s == 4
    then codes "禁用"
    else if s == 1
    then codes "系统IO初始化自启动"
    else []

abbrev pub service_texts : Service → List Text
service_texts s =
    s.name ∷ status_text s.state ∷ type_text s.kind ∷ start_type_text s.start ∷ s.path ∷ []

-- What the menu lets the user choose: ID_32794 starts the service, ID_32795 stops it.
pub data Choice : Type 0 where
  start_service stop_service : Choice

-- The entry that OnRclickList1 greys, for the text of the status.
unfoldable pub greyed : Text → Choice
greyed status =
    if list_eq status (codes "继续等待")
      || list_eq status (codes "暂停等待")
      || list_eq status (codes "已暂停")
      || list_eq status (codes "开始等待")
      || list_eq status (codes "停止等待")
      || list_eq status (codes "已停止")
    then stop_service
    else start_service

-- What the service manager answers: whether OpenSCManager, OpenService and the request succeed.
pub record Manager : Type 0 where
  pub opens_manager : Bool
  pub opens_service : Text → Bool
  pub does : Choice → Text → Bool

-- The handles that a call has closed, beside its result.
pub data Handle : Type 0 where
  manager_handle service_handle : Handle

-- doStartService and doPauseService
unfoldable pub do_service : Manager → Choice → Text → Bool × List Handle
do_service m choice name =
    if m.opens_manager
    then (if m.opens_service name
        then (if m.does choice name
            then (true, service_handle ∷ manager_handle ∷ [])
            else (false, service_handle ∷ manager_handle ∷ []))
        else (false, manager_handle ∷ []))
    else (false, [])

module _ (v : ListView) where
  open v use {Ctrl, get_item_text, set_item_text}

  pub record ServList : Type 0 where
    pub list : Ctrl
    pub row : ℕ
    pub service_name : Text
    pub service_status : Text

  -- getServiceInfo
  unfoldable pub get_service_info : List Service → ServList → ServList
  get_service_info services d = record d { list = fill_rows v service_texts 0 services d.list }

  -- OnRclickList1, at the row that was clicked: what is kept, and the entry that is greyed.
  unfoldable pub on_rclick : ℕ → ServList → ServList × Choice
  unfolding greyed
  on_rclick row d =
      let name = get_item_text row 0 d.list in
      let status = get_item_text row 1 d.list in
      (record d { row = row; service_name = name; service_status = status }, greyed status)

  -- OnCommandRangePMenu: the new state, and the result of the request, which is not looked at.
  unfoldable pub on_command : Manager → Choice → ServList → ServList × Bool
  on_command m start_service d =
      let (done, closed) = do_service m start_service d.service_name in
      (record d { list = set_item_text d.row 1 (codes "运行中") d.list }, done)
  on_command m stop_service d =
      let (done, closed) = do_service m stop_service d.service_name in
      (record d { list = set_item_text d.row 1 (codes "已暂停") d.list }, done)
