-- ===== src/Params/Request.antt =====
-- include/request_param_generated.h, a module for each of its tables.
pub mod VoidRequest
pub mod BoolRequest
pub mod IntRequest
pub mod Int64Request
pub mod FloatRequest
pub mod DoubleRequest
pub mod StringRequest
pub mod BytesRequest
pub mod RoundTrip
