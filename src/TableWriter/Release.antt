-- ===== src/TableWriter/Release.antt =====
-- What the writer thread of src/log_writer_table_mysql.cc gives back before it returns:
-- `release_services` and the calls behind the loop.
use mysql_selective_trace_pl.Common.{ℕ, Bool, false, ◌&&◌, if◌then◌else◌}
use mysql_selective_trace_pl.TableWriter.{
  release, registry_release, thread_end, Writer, Server, make, close_conn,
}

module _ (server : Server) where
  -- `if (h) reg_srv->release(h)`
  unfoldable pub release_one : ℕ → Bool → Writer → Writer
  unfolding make
  release_one row held w = if held then (make server (release row) w).1 else w

  unfoldable pub release_services : Writer → Writer
  unfolding make release_one
  release_services w =
      let w0 = release_one 0 w.com_factory w in
      let w1 = release_one 1 w.com_options w0 in
      let w2 = release_one 2 w.com_query w1 in
      let w3 = release_one 3 w.com_query_result w2 in
      let w4 = release_one 4 w.com_field_info w3 in
      let w5 = release_one 5 w.com_error_info w4 in
      let w6 = release_one 6 w.com_thread w5 in
      let (_, w7) = make server registry_release w6 in
      if w.services_acquired
      then record w7 {
        services_acquired = false;
        com_factory = false;
        com_options = false;
        com_query = false;
        com_query_result = false;
        com_field_info = false;
        com_error_info = false;
        com_thread = false;
      }
      else w

  -- `com_thread->end()`, if the thread was set up
  unfoldable pub end_thread : Writer → Writer
  unfolding make
  end_thread w =
      let (_, ended) = make server thread_end w in
      if w.command_thread_inited && w.com_thread
      then record ended { command_thread_inited = false }
      else w

  -- behind the `for (;;)` of the writer thread
  unfoldable pub finish : Writer → Writer
  unfolding close_conn end_thread release_services
  finish w = release_services (end_thread (close_conn server w))
