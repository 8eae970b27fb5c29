-- ===== src/Services/Menu.antt =====
-- The list of services, and what its menu offers and does.
use process_manger_alpha.Base.{
  ℕ, Bool, false, ◌||◌, ◌==◌, if◌then◌else◌, List, [], ◌∷◌, ◌≡◌, refl, ap, ◌∙◌, arith, some,
  get_elem?, modify_at, map,
}
use process_manger_alpha.Text.{Text, codes}
use process_manger_alpha.ListView.{ListView, row_of, write_cell}
use process_manger_alpha.ListView.Fill.{rows-fill_rows}
use process_manger_alpha.Services.{
  Service, status_text, service_texts, Choice, start_service, stop_service, greyed, Manager, Handle,
  manager_handle, service_handle, do_service, ServList, get_service_info, on_rclick, on_command,
}

-- The handles that the calls of `do_service` open for a service.
abbrev pub opened_handles : Manager → Text → List Handle
opened_handles m name =
    if m.opens_manager
    then (if m.opens_service name
        then service_handle ∷ manager_handle ∷ []
        else manager_handle ∷ [])
    else []

-- A request succeeds exactly when each of its three steps does, and every handle that it opened is
-- closed again on every path.
pub do_service-closes :
    (m : Manager) (choice : Choice) (name : Text)
    → let (done, closed) = do_service m choice name in
      (done ≡ (
        if m.opens_manager
        then (if m.opens_service name then m.does choice name else false)
        else false))
      × (closed ≡ opened_handles m name)
unfolding do_service
do_service-closes m choice name = ground arith

-- The six states in which a service does not run.
abbrev pub is_waiting : ℕ → Bool
is_waiting s = s == 1 || s == 2 || s == 3 || s == 5 || s == 6 || s == 7

greyed-status_text :
    (state : ℕ)
    → greyed (status_text state) ≡ (if is_waiting state then stop_service else start_service)
unfolding greyed status_text
greyed-status_text state = ground arith

module _ (v : ListView) where
  open v use {Ctrl, rows, get_item_text, get_item_text_lem, set_item_text, rows-set_item_text}

  -- The empty list is filled with the services, in order, each with its four texts and its name.
  pub get_service_info_lem :
      (services : List Service) (d : ServList v)
      → rows d.list ≡ []
      → rows (get_service_info v services d).list ≡ map (λ s. row_of (service_texts s)) services
  unfolding get_service_info
  get_service_info_lem services d e =
      rows-fill_rows v service_texts 0 services d.list (rw e refl) ∙ rw e refl

  -- A right click on the row of a service greys the entry that stops it in the six states in which it
  -- does not run, and else the one that starts it; the service that a command then acts on is the one
  -- of the row.
  pub on_rclick-greyed :
      (row : ℕ) (s : Service) (d : ServList v)
      → get_elem? (rows d.list) row ≡ some (row_of (service_texts s))
      → let (d', choice) = on_rclick v row d in
        (d'.service_name ≡ s.name)
        × (d'.row ≡ row)
        × (choice ≡ (if is_waiting s.state then stop_service else start_service))
  unfolding on_rclick
  on_rclick-greyed row s d e =
      let name : get_item_text row 0 d.list ≡ s.name = get_item_text_lem row 0 d.list ∙ rw e refl in
      let status : get_item_text row 1 d.list ≡ status_text s.state =
        get_item_text_lem row 1 d.list ∙ rw e refl in
      (name, refl, ap greyed status ∙ greyed-status_text s.state)

  -- A command shows the row of the service as running, or as paused, whatever the service manager
  -- answered.
  pub on_command_shown :
      (m : Manager) (choice : Choice) (d : ServList v)
      → let (d', done) = on_command v m choice d in
        (rows d'.list
          ≡ modify_at d.row
              (write_cell 1
                (elim choice [ start_service ↦ codes "运行中" | stop_service ↦ codes "已暂停" ]))
              (rows d.list))
        × (done ≡ (do_service m choice d.service_name).0)
  unfolding on_command
  on_command_shown m start_service d = (rows-set_item_text d.row 1 (codes "运行中") d.list, refl)
  on_command_shown m stop_service d = (rows-set_item_text d.row 1 (codes "已暂停") d.list, refl)
