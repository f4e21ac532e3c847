-- ===== src/Platform/Dispatch.antt =====
-- The table of entry points that the ICD loader calls, `disp` of src/cl_platform.c, and the order of
-- the entries that include/CL/cl_icd.h gives. A function stands for itself by its name.
use Prim.Native.String.{String}
use baremetal_crt_host.Common.{
  ℕ, zero, suc, ◌≡◌, refl, Bool, true, false, ◌&&◌, Option, none, some, List, [], ◌∷◌, ◌++◌, Bytes,
  codes, get_elem?, arith,
}
use baremetal_crt_host.Gdb.Access.{bytes_equal}

-- struct _cl_icd_dispatch: the names of its fields, in their order
unfoldable pub dispatch_fields : List String
dispatch_fields =
    "clGetPlatformIDs" ∷ "clGetPlatformInfo" ∷ "clGetDeviceIDs" ∷ "clGetDeviceInfo"
    ∷ "clCreateContext" ∷ "clCreateContextFromType" ∷ "clRetainContext" ∷ "clReleaseContext"
    ∷ "clGetContextInfo" ∷ "clCreateCommandQueue" ∷ "clRetainCommandQueue" ∷ "clReleaseCommandQueue"
    ∷ "clGetCommandQueueInfo" ∷ "clSetCommandQueueProperty" ∷ "clCreateBuffer" ∷ "clCreateImage2D"
    ∷ "clCreateImage3D" ∷ "clRetainMemObject" ∷ "clReleaseMemObject" ∷ "clGetSupportedImageFormats"
    ∷ "clGetMemObjectInfo" ∷ "clGetImageInfo" ∷ "clCreateSampler" ∷ "clRetainSampler"
    ∷ "clReleaseSampler" ∷ "clGetSamplerInfo" ∷ "clCreateProgramWithSource"
    ∷ "clCreateProgramWithBinary" ∷ "clRetainProgram" ∷ "clReleaseProgram" ∷ "clBuildProgram"
    ∷ "clUnloadCompiler" ∷ "clGetProgramInfo" ∷ "clGetProgramBuildInfo" ∷ "clCreateKernel"
    ∷ "clCreateKernelsInProgram" ∷ "clRetainKernel" ∷ "clReleaseKernel" ∷ "clSetKernelArg"
    ∷ "clGetKernelInfo" ∷ "clGetKernelWorkGroupInfo" ∷ "clWaitForEvents" ∷ "clGetEventInfo"
    ∷ "clRetainEvent" ∷ "clReleaseEvent" ∷ "clGetEventProfilingInfo" ∷ "clFlush" ∷ "clFinish"
    ∷ "clEnqueueReadBuffer" ∷ "clEnqueueWriteBuffer" ∷ "clEnqueueCopyBuffer" ∷ "clEnqueueReadImage"
    ∷ "clEnqueueWriteImage" ∷ "clEnqueueCopyImage" ∷ "clEnqueueCopyImageToBuffer"
    ∷ "clEnqueueCopyBufferToImage" ∷ "clEnqueueMapBuffer" ∷ "clEnqueueMapImage"
    ∷ "clEnqueueUnmapMemObject" ∷ "clEnqueueNDRangeKernel" ∷ "clEnqueueTask"
    ∷ "clEnqueueNativeKernel" ∷ "clEnqueueMarker" ∷ "clEnqueueWaitForEvents" ∷ "clEnqueueBarrier"
    ∷ "clGetExtensionFunctionAddress" ∷ "clCreateFromGLBuffer" ∷ "clCreateFromGLTexture2D"
    ∷ "clCreateFromGLTexture3D" ∷ "clCreateFromGLRenderbuffer" ∷ "clGetGLObjectInfo"
    ∷ "clGetGLTextureInfo" ∷ "clEnqueueAcquireGLObjects" ∷ "clEnqueueReleaseGLObjects"
    ∷ "clGetGLContextInfoKHR" ∷ "clGetDeviceIDsFromD3D10KHR" ∷ "clCreateFromD3D10BufferKHR"
    ∷ "clCreateFromD3D10Texture2DKHR" ∷ "clCreateFromD3D10Texture3DKHR"
    ∷ "clEnqueueAcquireD3D10ObjectsKHR" ∷ "clEnqueueReleaseD3D10ObjectsKHR" ∷ "clSetEventCallback"
    ∷ "clCreateSubBuffer" ∷ "clSetMemObjectDestructorCallback" ∷ "clCreateUserEvent"
    ∷ "clSetUserEventStatus" ∷ "clEnqueueReadBufferRect" ∷ "clEnqueueWriteBufferRect"
    ∷ "clEnqueueCopyBufferRect" ∷ "clCreateSubDevicesEXT" ∷ "clRetainDeviceEXT"
    ∷ "clReleaseDeviceEXT" ∷ "clCreateEventFromGLsyncKHR" ∷ "clCreateSubDevices" ∷ "clRetainDevice"
    ∷ "clReleaseDevice" ∷ "clCreateImage" ∷ "clCreateProgramWithBuiltInKernels" ∷ "clCompileProgram"
    ∷ "clLinkProgram" ∷ "clUnloadPlatformCompiler" ∷ "clGetKernelArgInfo" ∷ "clEnqueueFillBuffer"
    ∷ "clEnqueueFillImage" ∷ "clEnqueueMigrateMemObjects" ∷ "clEnqueueMarkerWithWaitList"
    ∷ "clEnqueueBarrierWithWaitList" ∷ "clGetExtensionFunctionAddressForPlatform"
    ∷ "clCreateFromGLTexture" ∷ "clGetDeviceIDsFromD3D11KHR" ∷ "clCreateFromD3D11BufferKHR"
    ∷ "clCreateFromD3D11Texture2DKHR" ∷ "clCreateFromD3D11Texture3DKHR"
    ∷ "clCreateFromDX9MediaSurfaceKHR" ∷ "clEnqueueAcquireD3D11ObjectsKHR"
    ∷ "clEnqueueReleaseD3D11ObjectsKHR" ∷ "clGetDeviceIDsFromDX9MediaAdapterKHR"
    ∷ "clEnqueueAcquireDX9MediaSurfacesKHR" ∷ "clEnqueueReleaseDX9MediaSurfacesKHR"
    ∷ "clCreateFromEGLImageKHR" ∷ "clEnqueueAcquireEGLObjectsKHR" ∷ "clEnqueueReleaseEGLObjectsKHR"
    ∷ "clCreateEventFromEGLSyncKHR" ∷ "clCreateCommandQueueWithProperties" ∷ "clCreatePipe"
    ∷ "clGetPipeInfo" ∷ "clSVMAlloc" ∷ "clSVMFree" ∷ "clEnqueueSVMFree" ∷ "clEnqueueSVMMemcpy"
    ∷ "clEnqueueSVMMemFill" ∷ "clEnqueueSVMMap" ∷ "clEnqueueSVMUnmap"
    ∷ "clCreateSamplerWithProperties" ∷ "clSetKernelArgSVMPointer" ∷ "clSetKernelExecInfo"
    ∷ "clGetKernelSubGroupInfoKHR" ∷ "clCloneKernel" ∷ "clCreateProgramWithIL"
    ∷ "clEnqueueSVMMigrateMem" ∷ "clGetDeviceAndHostTimer" ∷ "clGetHostTimer"
    ∷ "clGetKernelSubGroupInfo" ∷ "clSetDefaultDeviceCommandQueue" ∷ "clSetProgramReleaseCallback"
    ∷ "clSetProgramSpecializationConstant" ∷ "clCreateBufferWithProperties"
    ∷ "clCreateImageWithProperties" ∷ []

-- The table, where `none` is NULL
unfoldable pub disp : List (Option String)
disp =
    some "in_clGetPlatformIDs"
    ∷ some "in_clGetPlatformInfo"
    ∷ some "in_clGetDeviceIDs"
    ∷ some "in_clGetDeviceInfo"
    ∷ some "in_clCreateContext"
    ∷ some "in_clCreateContextFromType"
    ∷ some "in_clRetainContext"
    ∷ some "in_clReleaseContext"
    ∷ some "in_clGetContextInfo"
    ∷ none
    ∷ some "in_clRetainCommandQueue"
    ∷ some "in_clReleaseCommandQueue"
    ∷ some "in_clGetCommandQueueInfo"
    ∷ none
    ∷ some "in_clCreateBuffer"
    ∷ none
    ∷ none
    ∷ some "in_clRetainMemObject"
    ∷ some "in_clReleaseMemObject"
    ∷ none
    ∷ none
    ∷ none
    ∷ none
    ∷ none
    ∷ none
    ∷ none
    ∷ some "in_clCreateProgramWithSource"
    ∷ some "in_clCreateProgramWithBinary"
    ∷ some "in_clRetainProgram"
    ∷ some "in_clReleaseProgram"
    ∷ some "in_clBuildProgram"
    ∷ none
    ∷ none
    ∷ none
    ∷ some "in_clCreateKernel"
    ∷ some "in_clCreateKernelsInProgram"
    ∷ some "in_clRetainKernel"
    ∷ some "in_clReleaseKernel"
    ∷ some "in_clSetKernelArg"
    ∷ none
    ∷ none
    ∷ none
    ∷ none
    ∷ none
    ∷ none
    ∷ none
    ∷ some "in_clFlush"
    ∷ some "in_clFinish"
    ∷ some "in_clEnqueueReadBuffer"
    ∷ some "in_clEnqueueWriteBuffer"
    ∷ some "in_clEnqueueCopyBuffer"
    ∷ none
    ∷ none
    ∷ none
    ∷ none
    ∷ none
    ∷ some "in_clEnqueueMapBuffer"
    ∷ none
    ∷ some "in_clEnqueueUnmapMemObject"
    ∷ some "in_clEnqueueNDRangeKernel"
    ∷ none
    ∷ some "in_clEnqueueNativeKernel"
    ∷ none
    ∷ none
    ∷ none
    ∷ none
    ∷ none
    ∷ none
    ∷ none
    ∷ none
    ∷ none
    ∷ none
    ∷ none
    ∷ none
    ∷ none
    ∷ none
    ∷ none
    ∷ none
    ∷ none
    ∷ none
    ∷ none
    ∷ none
    ∷ none
    ∷ none
    ∷ none
    ∷ none
    ∷ some "in_clEnqueueReadBufferRect"
    ∷ some "in_clEnqueueWriteBufferRect"
    ∷ some "in_clEnqueueCopyBufferRect"
    ∷ none
    ∷ none
    ∷ none
    ∷ none
    ∷ none
    ∷ none
    ∷ none
    ∷ none
    ∷ none
    ∷ none
    ∷ none
    ∷ none
    ∷ none
    ∷ some "in_clEnqueueFillBuffer"
    ∷ none
    ∷ none
    ∷ none
    ∷ none
    ∷ none
    ∷ none
    ∷ none
    ∷ none
    ∷ none
    ∷ none
    ∷ none
    ∷ none
    ∷ none
    ∷ none
    ∷ none
    ∷ none
    ∷ none
    ∷ none
    ∷ none
    ∷ none
    ∷ some "in_clCreateCommandQueueWithProperties"
    ∷ none
    ∷ none
    ∷ none
    ∷ none
    ∷ none
    ∷ none
    ∷ none
    ∷ none
    ∷ none
    ∷ none
    ∷ none
    ∷ none
    ∷ none
    ∷ some "in_clCloneKernel"
    ∷ none
    ∷ none
    ∷ none
    ∷ none
    ∷ none
    ∷ none
    ∷ none
    ∷ none
    ∷ none
    ∷ none
    ∷ []

bytes_equal-eq : (xs ys : Bytes) → bytes_equal xs ys ≡ true → xs ≡ ys
unfolding bytes_equal
bytes_equal-eq [] [] h = refl
bytes_equal-eq [] (y ∷ ys) h = absurd (cc)
bytes_equal-eq (x ∷ xs) [] h = absurd (cc)
bytes_equal-eq (x ∷ xs) (y ∷ ys) h = let rest = bytes_equal-eq xs ys in ground (arith, rest)

-- The entries that are set name the function of their field.
abbrev names_agree : List (Option String) → List String → Bool
names_agree [] fields = true
names_agree (f ∷ fs) [] = false
names_agree (none ∷ fs) (name ∷ names) = names_agree fs names
names_agree (some f ∷ fs) (name ∷ names) =
    bytes_equal (codes f) (codes "in_" ++ codes name) && names_agree fs names

disp-agrees : names_agree disp dispatch_fields ≡ true
unfolding disp dispatch_fields bytes_equal
disp-agrees = refl

agree-at :
    (fs : List (Option String)) (names : List String) (i : ℕ) (f : String)
    → names_agree fs names ≡ true
    → get_elem? fs i ≡ some (some f)
    → (name : String) × (get_elem? names i ≡ some name) × (codes f ≡ codes "in_" ++ codes name)
agree-at [] names i f h e = absurd (cc)
agree-at (g ∷ fs) [] i f h e = absurd (cc)
agree-at (none ∷ fs) (name ∷ names) zero f h e = absurd (cc)
agree-at (some g ∷ fs) (name ∷ names) zero f h e =
    let same : g ≡ f = cc in
    let eq = bytes_equal-eq (codes g) (codes "in_" ++ codes name) (ground arith) in
    (name, refl, rw same at eq)
agree-at (none ∷ fs) (name ∷ names) (suc i) f h e = agree-at fs names i f h e
agree-at (some g ∷ fs) (name ∷ names) (suc i) f h e = agree-at fs names i f (ground arith) e

-- Every entry of the table that is not NULL is the runtime's function for the field in whose place
-- it stands: `in_` and the name of the field.
pub disp-dispatch_fields :
    (i : ℕ) (f : String)
    → get_elem? disp i ≡ some (some f)
    → (name : String) × (get_elem? dispatch_fields i ≡ some name)
      × (codes f ≡ codes "in_" ++ codes name)
disp-dispatch_fields i f = agree-at disp dispatch_fields i f disp-agrees
