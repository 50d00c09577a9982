-- ===== src/Client/App/Reports.antt =====
-- A report of a connection error shows the banner, and then throws.
use kubernetes_up_running.Base.{◌≡◌, refl}
use kubernetes_up_running.Client.Disconnected as Banner
use kubernetes_up_running.Client.App.{
  App, type_error, state_after, start_interval, report_conn_error,
}

-- `reportConnError` passes each report to the banner, and then ends by a TypeError, since the class
-- has no `loadState`: `this.timer` stays as it was, and no interval but the banner's is set.
report_conn_error-type_error :
    (app : App)
    → (report_conn_error app
        ≡ type_error (record app { disconnected = Banner.report_conn_error app.disconnected }))
      × ((state_after (report_conn_error app)).timer ≡ app.timer)
unfolding report_conn_error start_interval
report_conn_error-type_error app = (refl, refl)
